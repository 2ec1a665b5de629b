-- ===== src/Syscall/ReadWrite.antt =====
-- `sys_write` and `sys_read` of syscall.c on regular files.
use nbos.Base.{
  ℕ, ◌+◌, ◌-◌, ◌*◌, ◌/◌, ◌%◌, ◌^◌, ◌≤◌, ◌<◌, ◌≡◌, ◌≢◌, ◌⊎◌, inl, inr, refl, sym, ap, ◌∙◌, arith,
  true, false, ◌&&◌, Option, none, some, List, ◌==◌, lt→ltb, leb, ltb, if◌then◌else◌, get_elem?,
  set, get_elem?-set_ne, Option-cases, Bool-cases,
}
use nbos.Base.Bytes.{Bytes}
use nbos.File.Disk.{Disk, write_block_ne}
use nbos.File.Layout.{Inode, InodeFits, inode_size}
use nbos.File.Inodes.{read_inode, write_inode}
use nbos.File.Inodes.RoundTrip.{read_inode-write_inode_self}
use nbos.File.Content.{advanced, OpenFile, read_file}
use nbos.File.Content.Refine.{
  Mapped, block_at, content, write_file-content, read_file_at_offset-content,
}
use nbos.File.Format.{regular_file}
use nbos.File.Table.{have_access}
use nbos.Process.{Fd, IntrContext}
use nbos.Syscall.{
  Machine, ret, Opened, opened, entry, wild, entry_at, through, current_fd, sys_write, sys_read,
  write_opened, read_opened, from, no_inode, changed_from,
}

-- A call with a buffer for the open file `file` of the entry `index`, behind the three standard ones.
pub record Call (ptr : IntrContext) (m : Machine) (index : ℕ) (file : OpenFile) : Type 0 where
  pub behind_stderr : 3 ≤ ptr.ebx
  pub in_table : ptr.ebx < 20
  pub buffer : ptr.ecx ≢ 0
  pub target : opened ptr.ebx m ≡ entry index file

pub sys_write-opened :
    (bound : ℕ) (ptr : IntrContext) (m : Machine) (index : ℕ) (file : OpenFile)
    → Call ptr m index file
    → (file.oflags ≡ 1) ⊎ (file.oflags ≡ 2)
    → sys_write bound ptr m ≡ write_opened index file ptr.ecx ptr.edx m
unfolding sys_write have_access
sys_write-opened bound ptr m index file call (inl e) =
    rw (call.target, e) (ground (arith, call.behind_stderr, call.in_table, call.buffer))
sys_write-opened bound ptr m index file call (inr e) =
    rw (call.target, e) (ground (arith, call.behind_stderr, call.in_table, call.buffer))

pub sys_read-opened :
    (ptr : IntrContext) (m : Machine) (index : ℕ) (file : OpenFile)
    → Call ptr m index file
    → (file.oflags ≡ 0) ⊎ (file.oflags ≡ 2)
    → sys_read ptr m ≡ read_opened index file ptr.ecx ptr.edx m
unfolding sys_read have_access
sys_read-opened ptr m index file call (inl e) =
    rw (call.target, e) (ground (arith, call.behind_stderr, call.in_table, call.buffer))
sys_read-opened ptr m index file call (inr e) =
    rw (call.target, e) (ground (arith, call.behind_stderr, call.in_table, call.buffer))

entry_at-set :
    (p : Option ℕ) (files : List OpenFile) (a b : ℕ) (f g : OpenFile)
    → entry_at p files ≡ entry b g
    → b ≢ a
    → entry_at p (set files a f) ≡ entry b g
entry_at-set none files a b f g at ne = cc at
entry_at-set (some p) files a b f g at ne = elim (Option-cases (get_elem? files p)) [
  | inl e ↦ let nothing : entry_at (some p) files ≡ wild = rw (entry_at, e) in cc (nothing, at)
  | inr (h, e) ↦
      let there : entry_at (some p) files ≡ entry p h = rw (entry_at, e) in
      let same : p ≡ b = cc (there, at) in
      rw (entry_at, get_elem?-set_ne files f (λ q. ne (sym same ∙ sym q)), e) (sym there ∙ at)
]

through-set :
    (c : Option Fd) (files : List OpenFile) (a b : ℕ) (f g : OpenFile)
    → through c files ≡ entry b g
    → b ≢ a
    → through c (set files a f) ≡ entry b g
through-set none files a b f g at ne = cc at
through-set (some h) files a b f g at ne = elim (Bool-cases (h.open_flag == 0)) [
  | inl e ↦ let shut : through (some h) files ≡ Opened.closed = rw e in cc (shut, at)
  | inr e ↦
      let on : through (some h) files ≡ entry_at h.ofptr files = rw e in
      rw e (entry_at-set h.ofptr files a b f g (sym on ∙ at) ne)
]

-- Another entry of the table of open files changes: a descriptor leads where it led.
pub opened-set :
    (fd : ℕ) (m : Machine) (a b : ℕ) (f g : OpenFile) (d : Disk)
    → opened fd m ≡ entry b g
    → b ≢ a
    → opened fd (record m { file_list = set m.file_list a f; disk = d }) ≡ entry b g
unfolding opened
opened-set fd m a b f g d at ne = through-set (current_fd fd m.kernel) m.file_list a b f g at ne

-- A regular file at an entry: its inode `i` lies where the entry and the inode itself say, apart from
-- the file's first `n` blocks.
pub record RegularFile (m : Machine) (file : OpenFile) (i : Inode) (n : ℕ) : Type 0 where
  pub inode : read_inode m.disk file.f_inode_block_no file.f_inode_offset ≡ i
  pub regular : i.mode ≡ 0
  pub some_block : 0 < file.f_inode_block_no
  pub inode_block : file.f_inode_block_no ≤ 50
  pub inode_room : file.f_inode_offset + inode_size ≤ 512
  pub own_block : i.my_inode_block_no ≡ file.f_inode_block_no
  pub own_offset : i.my_inode_offset ≡ file.f_inode_offset
  pub fields : InodeFits i
  pub mapped : Mapped i n
  pub apart : (j : ℕ) → j < n → block_at i j ≢ file.f_inode_block_no

abbrev sized : Inode → ℕ → Inode
sized i size = record i { size = size }

sized-InodeFits : (i : Inode) (size : ℕ) → InodeFits i → size < 2 ^ 32 → InodeFits (sized i size)
sized-InodeFits i size fits lt = record {
  size = lt;
  atime = fits.atime;
  mtime = fits.mtime;
  ctime = fits.ctime;
  mode = fits.mode;
  next_block = fits.next_block;
  next_offset = fits.next_offset;
  my_block = fits.my_block;
  my_offset = fits.my_offset;
  words = fits.words;
  slots = fits.slots;
}

sized-Mapped : (i : Inode) (size n : ℕ) → Mapped i n → Mapped (sized i size) n
sized-Mapped i size n mapped = record {
  small = mapped.small;
  here = mapped.here;
  nonzero = mapped.nonzero;
  bound = mapped.bound;
  apart = mapped.apart;
}

module _ (m : Machine) (file : OpenFile) (i : Inode) (n : ℕ)
    (regular : RegularFile m file i n) where
  has_inode : (g : OpenFile) → g.f_inode_block_no ≡ file.f_inode_block_no → no_inode g ≡ false
  has_inode g e = ground (arith, e, regular.some_block, regular.inode_block)

  is_regular : (i.mode == regular_file) ≡ true
  is_regular = ground (arith, regular.regular)

  -- `writeInode` leaves the file's bytes.
  content-write_inode :
      (d : Disk) (size p : ℕ)
      → p < n * 512
      → content (write_inode d (sized i size)) (sized i size) p ≡ content d i p
  unfolding write_inode
  content-write_inode d size p lt =
      ap (λ (b : Bytes). b (p % 512))
        (write_block_ne d _ i.my_inode_block_no (block_at i (p / 512)) regular.fields.my_block
          (omega (arith, regular.mapped.bound (p / 512) (omega arith)))
          (λ e. regular.apart (p / 512) (omega arith) (e ∙ regular.own_block)))

  pub write_opened-content :
      (index buf size p : ℕ)
      → file.offset + size ≤ n * 512
      → p < n * 512
      → (d : Disk) × (write_opened index file buf size m
          ≡ ret size (record m {
            file_list = set m.file_list index (record file { offset = file.offset + size });
            disk = write_inode d (sized i ((i.size + size) % 2 ^ 32));
          }))
        × (content d i p ≡ (
            if leb file.offset p && ltb p (file.offset + size)
            then m.memory (buf + (p - file.offset))
            else content m.disk i p))
  unfolding write_opened
  write_opened-content index buf size p fits lt =
      let (d, wrote, at) =
        write_file-content m.disk file i (from m.memory buf) size n p regular.mapped fits lt in
      (d, rw (regular.inode, is_regular, has_inode file refl, wrote), at)

-- The read that follows, through another entry `g` for the same inode.
module _ (m : Machine) (i : Inode) (n : ℕ) (file : OpenFile) (regular : RegularFile m file i n)
    (d : Disk) (new_size : ℕ) (small : new_size < 2 ^ 32) (files : List OpenFile) where
  abbrev written : Machine
  written = record m { file_list = files; disk = write_inode d (sized i new_size) }

  read_back :
      (g : OpenFile)
      → g.f_inode_block_no ≡ file.f_inode_block_no
      → g.f_inode_offset ≡ file.f_inode_offset
      → read_inode written.disk g.f_inode_block_no g.f_inode_offset ≡ sized i new_size
  read_back g e o =
      ap (λ (b : ℕ). read_inode written.disk b g.f_inode_offset) (e ∙ sym regular.own_block)
      ∙ ap (λ (t : ℕ). read_inode written.disk i.my_inode_block_no t) (o ∙ sym regular.own_offset)
      ∙ read_inode-write_inode_self d (sized i new_size)
          (sized-InodeFits i new_size regular.fields small)
          (omega (arith, regular.inode_room, regular.own_offset))

  pub read_opened-content :
      (index : ℕ) (g : OpenFile) (buf size k : ℕ)
      → g.f_inode_block_no ≡ file.f_inode_block_no
      → g.f_inode_offset ≡ file.f_inode_offset
      → g.offset ≤ new_size
      → g.offset + size ≤ n * 512
      → k < size
      → (m' : Machine) × (read_opened index g buf size written ≡ ret size m')
        × (m'.memory (buf + k) ≡ content d i (g.offset + k))
  unfolding read_opened read_file
  read_opened-content index g buf size k e o le fits lt =
      let (out, read, at) =
        read_file_at_offset-content written.disk (sized i new_size) g.offset (from m.memory buf)
          size n k (sized-Mapped i new_size n regular.mapped) le fits in
      let word : (g.offset + size) % 2 ^ 32 ≡ g.offset + size =
        omega (arith, fits, regular.mapped.small) in
      (
        record written {
          file_list = set files index (record g { offset = g.offset + size });
          disk = write_inode written.disk (sized i new_size);
          memory = changed_from m.memory buf out;
        },
        rw (
          read_back g e o,
          is_regular m file i n regular,
          has_inode m file i n regular g e,
          read,
          advanced,
          word,
        ),
        (ground arith)
            ∙ at
            ∙ rw (lt→ltb k size lt)
                (content-write_inode m file i n regular d new_size (g.offset + k) (omega arith)),
      )

-- Two descriptors lead to different entries `f` and `g` of the table of open files, `f` with the right
-- to write and `g` with the right to read, both for the same regular file and at the same offset. The
-- file's first `n` blocks are allocated, the bytes of the call lie in them and in a file that stays
-- below 2^32 bytes, and the offset is not beyond the file's size. Then `sys_write` of `size` bytes
-- returns `size`, `sys_read` of `size` bytes after it returns `size` too, and the byte `k` that it puts
-- into its buffer is the one of the buffer that was written.
pub sys_read-sys_write :
    (bound : ℕ) (w r : IntrContext) (m : Machine) (a b : ℕ) (f g : OpenFile) (i : Inode) (n k : ℕ)
    → Call w m a f
    → Call r m b g
    → b ≢ a
    → (f.oflags ≡ 1) ⊎ (f.oflags ≡ 2)
    → (g.oflags ≡ 0) ⊎ (g.oflags ≡ 2)
    → (g.f_inode_block_no ≡ f.f_inode_block_no)
      × (g.f_inode_offset ≡ f.f_inode_offset)
      × (g.offset ≡ f.offset)
    → RegularFile m f i n
    → w.edx ≡ r.edx
    → f.offset ≤ i.size
    → f.offset + w.edx ≤ n * 512
    → i.size + w.edx < 2 ^ 32
    → k < w.edx
    → (m1 m2 : Machine) × (sys_write bound w m ≡ ret w.edx m1)
      × (sys_read r m1 ≡ ret r.edx m2)
      × (m2.memory (r.ecx + k) ≡ m.memory (w.ecx + k))
sys_read-sys_write bound w r m a b f g i n k cw cr ne may_write may_read (e, o, at) regular same le
      fits small lt =
    let (d, wrote, each) =
      write_opened-content m f i n regular a w.ecx w.edx (f.offset + k) fits (omega arith) in
    let new_size = (i.size + w.edx) % 2 ^ 32 in
    let files = set m.file_list a (record f { offset = f.offset + w.edx }) in
    let m1 = record m { file_list = files; disk = write_inode d (sized i new_size) } in
    let again : Call r m1 b g = record {
      behind_stderr = cr.behind_stderr;
      in_table = cr.in_table;
      buffer = cr.buffer;
      target =
          opened-set r.ebx m a b (record f { offset = f.offset + w.edx }) g
            (write_inode d (sized i new_size)) cr.target ne;
    } in
    let (m2, read, there) =
      read_opened-content m i n f regular d new_size (omega arith) files b g r.ecx r.edx k e o
        (omega arith) (omega arith) (omega arith) in
    (
      m1,
      m2,
      sys_write-opened bound w m a f cw may_write ∙ wrote,
      sys_read-opened r m1 b g again may_read ∙ read,
      there ∙ ap (λ (p : ℕ). content d i p) (omega arith) ∙ each ∙ ground (arith, lt),
    )
