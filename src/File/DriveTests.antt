-- ===== src/File/DriveTests.antt =====
-- The theorems on the drive's ports and on `read_seg` at a concrete drive and disk.
use native.Mathlib.Omega.{arith}
use mathlib.Core.Path.{◌≡◌, refl}
use nbos.Base.{
  ℕ, ◌+◌, ◌-◌, ◌*◌, ◌/◌, ◌%◌, ◌^◌, true, some, List, ◌∷◌, ◌==◌, ltb, leb, ◌&&◌, if◌then◌else◌,
}
use nbos.Base.Bytes.{IsBytes, read16}
use nbos.File.Disk.{Disk, k_readsector}
use nbos.File.Ide.{Out, Transfer, k_operatesector, wait_ready, Documented, k_operatesector-read}
use nbos.File.ReadSeg.{read_seg, read_seg_lem}

-- A disk whose sectors repeat their number.
abbrev disk : Disk
disk s k = s % 256

disk-IsBytes : (s : ℕ) → IsBytes (disk s)
disk-IsBytes s k = omega arith

abbrev ready : ℕ → ℕ
ready k = if k == 0 then 0x80 else 0x58

-- A drive with this disk.
unfoldable registers : List Out → ℕ
registers ((a, count) ∷ (b, n) ∷ (c, low) ∷ (e, high) ∷ (f, device) ∷ out) =
    n + 256 * low + 65536 * high + 2 ^ 24 * (device % 16)
registers _ = 0

abbrev drive : List Out → ℕ → ℕ
drive out i = read16 (disk (registers out)) (2 * i)

drive-Documented : Documented drive disk
unfolding registers
drive-Documented n low high device i a b c e = refl

is_ready : wait_ready 2 ready ≡ true
unfolding wait_ready
is_ready = refl

k_operatesector-read_example :
    (t : Transfer) × (k_operatesector 2 0 ready drive 1000 (2 ^ 24 + 300) 0 (λ k. 0) ≡ some t)
    × (t.disk_lock ≡ 0)
    × (t.mem 1001 ≡ (
        if leb 1000 1001 && ltb 1001 (1000 + 512)
        then k_readsector disk ((2 ^ 24 + 300) % 2 ^ 24) (1001 - 1000)
        else 0))
k_operatesector-read_example =
    k_operatesector-read 2 ready drive disk 1000 (2 ^ 24 + 300) 1001 (λ k. 0) drive-Documented
      disk-IsBytes is_ready

read_seg_lem_example : read_seg disk 5000 600 7 100 (λ k. 0) (5000 + 599) ≡ (
    if ltb (100 % 512 + 599) ((600 + 511) / 512 * 512)
    then disk (7 + (100 + 599) / 512) ((100 + 599) % 512)
    else 0)
read_seg_lem_example = read_seg_lem disk 5000 600 7 100 599 (λ k. 0) (omega arith) (omega arith)
