-- ===== src/File/Ide.antt =====
-- `k_operatesector` of diskload.c: the ports of the disk controller. The drive is outside of the source:
-- the words that it gives are an argument, by the port writes that came before.
use nbos.Base.{
  ℕ, zero, suc, ◌+◌, ◌-◌, ◌*◌, ◌/◌, ◌%◌, ◌^◌, ◌<◌, ◌≡◌, refl, Bool, true, false, not, ap, ◌∙◌,
  arith, ne→==, inl, inr, Bool-cases, Option, none, some, List, [], ◌∷◌, ◌==◌, ltb, leb, ◌&&◌,
  if◌then◌else◌,
}
use native.Mathlib.Decide.{ℕ_discrete}
use nbos.Base.Bytes.{Bytes, IsBytes, read16}
use nbos.Memory.Copy.{put}
use nbos.File.Disk.{Disk, k_readsector}

-- A write of a byte to a port.
abbrev pub Out : Type 0
Out = ℕ × ℕ

abbrev pub ide_sector_count_port : ℕ
ide_sector_count_port = 0x1f2

abbrev pub ide_sector_number_port : ℕ
ide_sector_number_port = 0x1f3

abbrev pub ide_cylinder_low_port : ℕ
ide_cylinder_low_port = 0x1f4

abbrev pub ide_cylinder_high_port : ℕ
ide_cylinder_high_port = 0x1f5

abbrev pub ide_device_port : ℕ
ide_device_port = 0x1f6

abbrev pub ide_status_port : ℕ
ide_status_port = 0x1f7

-- `((sector_number & 0x0f0000) >> 24) | 0xe0`, where the first part has none of the bits of the second.
unfoldable pub device_byte : ℕ → ℕ
device_byte sector_number = sector_number / 65536 % 16 * 65536 / 2 ^ 24 + 0xe0

-- The port writes that start a command, which is 0x20 or 0x30.
unfoldable pub command : ℕ → ℕ → List Out
unfolding device_byte
command sector_number operation =
    (ide_sector_count_port, 1)
    ∷ (ide_sector_number_port, sector_number % 256)
    ∷ (ide_cylinder_low_port, sector_number / 256 % 256)
    ∷ (ide_cylinder_high_port, sector_number / 65536 % 256)
    ∷ (ide_device_port, device_byte sector_number)
    ∷ (ide_status_port, operation)
    ∷ []

-- The loop over the status, which is read from `status` one by one: whether the drive is ready within so
-- many reads.
unfoldable pub wait_ready : ℕ → (ℕ → ℕ) → Bool
wait_ready zero status = false
wait_ready (suc fuel) status =
    let later = wait_ready fuel (λ k. status (k + 1)) in
    if status 0 / 8 % 2 == 0 then later else true

-- The words from the data port, put into the memory: `n` words left, from the word `i` on.
unfoldable pub words_in : ℕ → ℕ → (ℕ → ℕ) → ℕ → Bytes → Bytes
unfolding put
words_in zero i word target_location mem = mem
words_in (suc n) i word target_location mem =
    words_in n (i + 1) word (target_location + 2)
      (put (put mem target_location (word i % 256)) (target_location + 1) (word i / 256 % 256))

-- The words that are written to the data port.
unfoldable pub words_out : ℕ → ℕ → Bytes → List ℕ
unfolding read16
words_out zero target_location mem = []
words_out (suc n) target_location mem =
    read16 mem target_location ∷ words_out n (target_location + 2) mem

-- A transfer between the memory and the drive, with the lock as it is left.
pub record Transfer : Type 0 where
  pub disk_lock : ℕ
  pub out : List Out
  pub words : List ℕ
  pub mem : Bytes

-- `k_operatesector`, with `disk_lock`, the drive's status and its words. `none`: the lock is taken, or the
-- drive does not get ready within `fuel` reads.
unfoldable pub k_operatesector :
    ℕ → ℕ → (ℕ → ℕ) → (List Out → ℕ → ℕ) → ℕ → ℕ → ℕ → Bytes → Option Transfer
unfolding command wait_ready
k_operatesector fuel disk_lock status drive target_location sector_number rwflag mem =
    let out = command sector_number (if rwflag == 0 then 0x20 else 0x30) in
    let done =
      if rwflag == 0
      then record {
        disk_lock = 0;
        out = out;
        words = [];
        mem = words_in 256 0 (drive out) target_location mem;
      }
      else record {
        disk_lock = 0;
        out = out;
        words = words_out 256 target_location mem;
        mem = mem;
      } in
    if not (disk_lock == 0) then none else if wait_ready fuel status then some done else none

words_in_at :
    (n i : ℕ) (word : ℕ → ℕ) (t k : ℕ) (mem : Bytes)
    → words_in n i word t mem k ≡ (
        if leb t k && ltb k (t + 2 * n)
        then (if (k - t) % 2 == 0
            then word (i + (k - t) / 2) % 256
            else word (i + (k - t) / 2) / 256 % 256)
        else mem k)
unfolding words_in put
words_in_at zero i word t k mem = ground arith
words_in_at (suc n) i word t k mem = words_in_at n (i + 1) word (t + 2) k _ ∙ ground arith

-- A drive that gives the words of the sector whose number the four registers hold, as the ATA standard has
-- it for the LBA mode: eight bits in each of three of them and four in the device register.
abbrev pub Documented : (List Out → ℕ → ℕ) → Disk → Type 0
Documented drive d =
    (n low high device i : ℕ)
    → n < 256
    → low < 256
    → high < 256
    → i < 256
    → drive
        ((0x1f2, 1)
          ∷ (0x1f3, n)
          ∷ (0x1f4, low)
          ∷ (0x1f5, high)
          ∷ (0x1f6, device)
          ∷ (0x1f7, 0x20)
          ∷ [])
        i
      ≡ read16 (d (n + 256 * low + 65536 * high + 2 ^ 24 * (device % 16))) (2 * i)

module _ (drive : List Out → ℕ → ℕ) (d : Disk) (documented : Documented drive d)
    (bytes : (sector : ℕ) → IsBytes (d sector)) (s : ℕ) where
  drive_word : (i : ℕ) → i < 256 → drive (command s 0x20) i ≡ read16 (d (s % 2 ^ 24)) (2 * i)
  unfolding command device_byte
  drive_word i lt =
      documented (s % 256) (s / 256 % 256) (s / 65536 % 256) (device_byte s) i (omega arith)
        (omega arith) (omega arith) lt
      ∙ ap (λ (n : ℕ). read16 (d n) (2 * i)) (omega arith)

  drive_byte :
      (j : ℕ)
      → j < 512
      → (if j % 2 == 0
          then drive (command s 0x20) (j / 2) % 256
          else drive (command s 0x20) (j / 2) / 256 % 256)
        ≡ d (s % 2 ^ 24) j
  unfolding read16
  drive_byte j lt = elim (ℕ_discrete (j % 2) 0) [
    | yes e ↦
        let here : d (s % 2 ^ 24) (2 * (j / 2)) ≡ d (s % 2 ^ 24) j =
          ap (d (s % 2 ^ 24)) (omega arith) in
        rw (e, drive_word (j / 2) (omega arith))
          (omega (arith, here, bytes (s % 2 ^ 24) (2 * (j / 2))))
    | no ne ↦
        let here : d (s % 2 ^ 24) (2 * (j / 2) + 1) ≡ d (s % 2 ^ 24) j =
          ap (d (s % 2 ^ 24)) (omega arith) in
        rw (ne→== (j % 2) 0 ne, drive_word (j / 2) (omega arith))
          (omega
            (arith, here, bytes (s % 2 ^ 24) (2 * (j / 2)), bytes (s % 2 ^ 24) (2 * (j / 2) + 1)))
  ]

-- With the lock free and a drive that gets ready and gives the words of the sector in its registers, reading
-- a sector puts 512 bytes of the sector with the number modulo 2^24 into the memory, and the other bytes
-- of the memory stay: for numbers below 2^24 this is `k_readsector` of the disk. The lock is free again.
pub k_operatesector-read :
    (fuel : ℕ) (status : ℕ → ℕ) (drive : List Out → ℕ → ℕ) (d : Disk)
    (target_location sector_number k : ℕ) (mem : Bytes)
    → Documented drive d
    → ((sector : ℕ) → IsBytes (d sector))
    → wait_ready fuel status ≡ true
    → (t : Transfer) × (k_operatesector fuel 0 status drive target_location sector_number 0 mem
        ≡ some t)
      × (t.disk_lock ≡ 0)
      × (t.mem k ≡ (
          if leb target_location k && ltb k (target_location + 512)
          then k_readsector d (sector_number % 2 ^ 24) (k - target_location)
          else mem k))
unfolding k_operatesector k_readsector
k_operatesector-read fuel status drive d t s k mem documented bytes ready = (
  record {
    disk_lock = 0;
    out = command s 0x20;
    words = [];
    mem = words_in 256 0 (drive (command s 0x20)) t mem;
  },
  rw ready,
  refl,
  words_in_at 256 0 (drive (command s 0x20)) t k mem ∙ byte,
)
  where
    first : 0 + (k - t) / 2 ≡ (k - t) / 2
    first = omega arith

    byte :
        (if leb t k && ltb k (t + 512)
          then (if (k - t) % 2 == 0
              then drive (command s 0x20) (0 + (k - t) / 2) % 256
              else drive (command s 0x20) (0 + (k - t) / 2) / 256 % 256)
          else mem k)
        ≡ (if leb t k && ltb k (t + 512) then d (s % 2 ^ 24) (k - t) else mem k)
    byte = elim (Bool-cases (leb t k && ltb k (t + 512))) [
      | inl e ↦ rw (e, first) (drive_byte drive d documented bytes s (k - t) (ground (arith, e)))
      | inr e ↦ rw e
    ]
