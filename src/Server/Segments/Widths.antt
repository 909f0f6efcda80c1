-- ===== src/Server/Segments/Widths.antt =====
-- The fields of a record id: how wide each is, and how the ids compare.
use Prim.Native.Nat.pow
use dlt_matterbeam.Prelude.{
  ℕ, zero, suc, ◌+◌, ◌*◌, ◌/◌, ◌^◌, ◌≤◌, ◌<◌, ◌≡◌, refl, ap, ◌∙◌, max, arith,
}
use dlt_matterbeam.Server.Segments.{digits_in, digit_count, padded, pack_record_id}

pow_suc : (n m : ℕ) → n ^ suc m ≡ n ^ m * n
pow_suc n m = λ i. pow.suc n m i

-- a number below a power of ten has at most that many digits
digits_in_bound : (fuel k n : ℕ) → n < 10 ^ suc k → digits_in fuel n ≤ suc k
unfolding digits_in
digits_in_bound zero k n small = omega arith
digits_in_bound (suc fuel) zero n small = ground (arith, pow_suc 10 zero)
digits_in_bound (suc fuel) (suc k) n small =
    let shorter : n / 10 < 10 ^ suc k = ground (arith, pow_suc 10 (suc k)) in
    ground (arith, digits_in_bound fuel k (n / 10) shorter)

padded_fits : (acc k n : ℕ) → n < 10 ^ suc k → padded acc (suc k) n ≡ acc * 10 ^ suc k + n
unfolding padded digit_count
padded_fits acc k n small =
    let width : max (suc k) (digits_in n n) ≡ suc k = omega (arith, digits_in_bound n k n small) in
    rw (width) refl

-- Where the sequence number and the noise have at most ten digits and the writer id at most five,
-- the fields of a record id stand apart: it is their number to the base of their widths.
pub pack_record_id-fields :
    (ms seq writer_id noise : ℕ)
    → seq < 10000000000
    → writer_id < 100000
    → noise < 10000000000
    → pack_record_id ms seq writer_id noise
      ≡ ((ms * 10000000000 + seq) * 100000 + writer_id) * 10000000000 + noise
unfolding pack_record_id
pack_record_id-fields ms seq writer_id noise s w n =
    padded_fits _ 9 noise n
    ∙ ap (λ x. x * 10000000000 + noise)
        (padded_fits _ 4 writer_id w ∙ ap (λ x. x * 100000 + writer_id) (padded_fits ms 9 seq s))
