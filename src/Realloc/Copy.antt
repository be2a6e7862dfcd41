-- ===== src/Realloc/Copy.antt =====
-- tb-utils.c, lines 338 and 353: what the two loops leave in memory.
use threading_from_scratch.Prelude.{
  ℕ,
  zero,
  suc,
  ◌+◌,
  ◌≤◌,
  ◌<◌,
  ◌≡◌,
  refl,
  ◌∙◌,
  ◌⊎◌,
  inl,
  arith,
  Threads.{put},
}
use threading_from_scratch.Realloc.{copy_bytes, zero_bytes}

-- Bytes outside the target stay.
pub copy_bytes_outside :
    (r s d x : ℕ) (byte : ℕ → ℕ) → (x < d) ⊎ (d + r ≤ x) → copy_bytes r s d byte x ≡ byte x
unfolding copy_bytes
copy_bytes_outside zero s d x byte out = refl
copy_bytes_outside (suc r) s d x byte out =
    ground (arith, copy_bytes_outside r (s + 1) (d + 1) x (put byte d (byte s)))

-- A byte of the source that is not in the target comes to its place there.
pub copy_bytes_inside :
    (r s d i : ℕ) (byte : ℕ → ℕ)
    → i < r
    → (s + i < d) ⊎ (d + r ≤ s + i)
    → copy_bytes r s d byte (d + i) ≡ byte (s + i)
unfolding copy_bytes
copy_bytes_inside zero s d i byte lt out = absurd (omega arith)
copy_bytes_inside (suc r) s d zero byte lt out =
    let target : d + 0 ≡ d = omega arith in
    let source : s + 0 ≡ s = omega arith in
    let kept = copy_bytes_outside r (s + 1) (d + 1) d (put byte d (byte s)) (inl (omega arith)) in
    rw (target, source) (kept ∙ ground arith)
copy_bytes_inside (suc r) s d (suc i) byte lt out =
    let target : d + suc i ≡ d + 1 + i = omega arith in
    let source : s + suc i ≡ s + 1 + i = omega arith in
    let later =
      copy_bytes_inside r (s + 1) (d + 1) i (put byte d (byte s)) (omega arith) (omega arith) in
    rw (target, source) (later ∙ ground arith)

zero_bytes_outside : (r d x : ℕ) (byte : ℕ → ℕ) → x < d → zero_bytes r d byte x ≡ byte x
unfolding zero_bytes
zero_bytes_outside zero d x byte out = refl
zero_bytes_outside (suc r) d x byte out =
    ground (arith, zero_bytes_outside r (d + 1) x (put byte d 0))

pub zero_bytes_inside : (r d i : ℕ) (byte : ℕ → ℕ) → i < r → zero_bytes r d byte (d + i) ≡ 0
unfolding zero_bytes
zero_bytes_inside zero d i byte lt = absurd (omega arith)
zero_bytes_inside (suc r) d zero byte lt =
    let target : d + 0 ≡ d = omega arith in
    rw target (zero_bytes_outside r (d + 1) d (put byte d 0) (omega arith) ∙ ground arith)
zero_bytes_inside (suc r) d (suc i) byte lt =
    let target : d + suc i ≡ d + 1 + i = omega arith in
    rw target (zero_bytes_inside r (d + 1) i (put byte d 0) (omega arith))
