-- ===== src/Daemon/Selects.antt =====
-- Which registers pcr_select of tpm2/libquote.c selects.
use portable_tls_ra.Base.{
  ◌+◌, ℕ, zero, suc, ◌/◌, ◌%◌, ◌^◌, ◌<◌, ◌≤◌, ◌≡◌, inl, inr, refl, ap, subst, ◌∙◌, Bool, true,
  false, ◌||◌, ◌&&◌, some, List, [], ◌∷◌, length, length-set, set, get_or, get_or-set,
  get_or-replicate, replicate, ltb, lt→ltb, ltb→lt, ◌==◌, ==_iff, if◌then◌else◌, bit_or, All,
  Bool-cases, arith, &&-eq-true,
}
use portable_tls_ra.Daemon.Tpm.{PcrSelection, select_from, pcr_select, is_selected}

-- A test of the numbers from `lo` on, `count` of them.
abbrev passes : (ℕ → Bool) → ℕ → ℕ → Bool
passes test zero lo = true
passes test (suc count) lo = test lo && passes test count (lo + 1)

passes-at :
    (test : ℕ → Bool) (count lo k : ℕ)
    → passes test count lo ≡ true
    → lo ≤ k
    → k < lo + count
    → test k ≡ true
passes-at test zero lo k ok low high = absurd (omega (arith, low, high))
passes-at test (suc count) lo k ok low high =
    let (now, later) = &&-eq-true (test lo) (passes test count (lo + 1)) ok in
    elim (Bool-cases (lo == k)) [
      | inl here ↦ subst (λ i. test i ≡ true) ((==_iff lo k).0 here) now
      | inr further ↦
          passes-at test count (lo + 1) k later (ground (arith, low, further)) (omega (arith, high))
    ]

-- Setting a bit of a byte leaves a byte, with that bit and those it had.
abbrev bit_set : ℕ → ℕ → ℕ → Bool
bit_set b k j =
    let b' = bit_or b (2 ^ k) in
    ltb b' 256 && (b' / 2 ^ j % 2 == (if j == k then 1 else b / 2 ^ j % 2))

abbrev row : ℕ → ℕ → Bool
row b k = passes (bit_set b k) 8 0

bit_set_table : passes (λ b. passes (row b) 8 0) 256 0 ≡ true
bit_set_table = refl

bit_set_all : (b k j : ℕ) → b < 256 → k < 8 → j < 8 → bit_set b k j ≡ true
bit_set_all b k j byte bit other =
    let rows =
      passes-at (λ b. passes (row b) 8 0) 256 0 b bit_set_table (omega arith)
        (omega (arith, byte)) in
    let cells = passes-at (row b) 8 0 k rows (omega arith) (omega (arith, bit)) in
    passes-at (bit_set b k) 8 0 j cells (omega arith) (omega (arith, other))

set_bit :
    (b k j : ℕ)
    → b < 256
    → k < 8
    → j < 8
    → (bit_or b (2 ^ k) < 256)
      × (bit_or b (2 ^ k) / 2 ^ j % 2 ≡ (if j == k then 1 else b / 2 ^ j % 2))
set_bit b k j hb hk hj =
    let b' = bit_or b (2 ^ k) in
    let bits = if j == k then 1 else b / 2 ^ j % 2 in
    let (small, bit) =
      &&-eq-true (ltb b' 256) (b' / 2 ^ j % 2 == bits) (bit_set_all b k j hb hk hj) in
    (ltb→lt b' 256 small, (==_iff (b' / 2 ^ j % 2) bits).0 bit)

-- The bit of a register.
abbrev register_bit : List ℕ → ℕ → ℕ
register_bit bytes r = get_or bytes (r / 8) 0 / 2 ^ (r % 8) % 2

abbrev pub is_listed : ℕ → List ℕ → Bool
is_listed r [] = false
is_listed r (pcr ∷ pcrs) = r == pcr || is_listed r pcrs

abbrev AreBytes : List ℕ → Type 0
AreBytes bytes = (i : ℕ) → get_or bytes i 0 < 256

set-AreBytes :
    (bytes : List ℕ) (i v : ℕ)
    → i < length bytes
    → v < 256
    → AreBytes bytes
    → AreBytes (set bytes i v)
set-AreBytes bytes i v here small all j =
    ground (arith, get_or-set bytes i j v 0 here, all j, small)

-- One register more.
register_bit-set :
    (bytes : List ℕ) (pcr r : ℕ)
    → length bytes ≡ 4
    → AreBytes bytes
    → pcr < 32
    → register_bit (set bytes (pcr / 8) (bit_or (get_or bytes (pcr / 8) 0) (2 ^ (pcr % 8)))) r
      ≡ (if r == pcr then 1 else register_bit bytes r)
register_bit-set bytes pcr r four all small =
    let b = get_or bytes (pcr / 8) 0 in
    let v = bit_or b (2 ^ (pcr % 8)) in
    let here = get_or-set bytes (pcr / 8) (r / 8) v 0 (omega (arith, four, small)) in
    let bit = (set_bit b (pcr % 8) (r % 8) (all (pcr / 8)) (omega arith) (omega arith)).1 in
    elim (Bool-cases (pcr / 8 == r / 8)) [
      | inr other ↦
          let differs : (r == pcr) ≡ false = ground (arith, other) in rw (here, other, differs) refl
      | inl same ↦
          let byte : pcr / 8 ≡ r / 8 = (==_iff _ _).0 same in
          elim (Bool-cases (r % 8 == pcr % 8)) [
            | inl also ↦
                let equal : (r == pcr) ≡ true = ground (arith, byte, also) in
                rw (here, same, bit, also, equal) refl
            | inr not_also ↦
                let differs : (r == pcr) ≡ false = ground (arith, byte, not_also) in
                rw (here, same, bit, not_also, differs)
                  (ap (λ i. get_or bytes i 0 / 2 ^ (r % 8) % 2) byte)
          ]
    ]

select_from_lem :
    (pcrs bytes : List ℕ)
    → length bytes ≡ 4
    → AreBytes bytes
    → All (λ pcr. pcr < 32) pcrs
    → (out : List ℕ) × (select_from pcrs bytes ≡ some out)
      × ((r : ℕ) → register_bit out r ≡ (if is_listed r pcrs then 1 else register_bit bytes r))
unfolding select_from
select_from_lem [] bytes four all few = (bytes, refl, λ r. refl)
select_from_lem (pcr ∷ pcrs) bytes four all (small, few) =
    let b = get_or bytes (pcr / 8) 0 in
    let v = bit_or b (2 ^ (pcr % 8)) in
    let here : pcr / 8 < length bytes = omega (arith, four, small) in
    let room : ltb (pcr / 8) (length bytes) ≡ true = lt→ltb (pcr / 8) (length bytes) here in
    let byte = (set_bit b (pcr % 8) 0 (all (pcr / 8)) (omega arith) (omega arith)).0 in
    let (out, ran, bits) =
      select_from_lem pcrs (set bytes (pcr / 8) v) (length-set bytes (pcr / 8) v ∙ four)
        (set-AreBytes bytes (pcr / 8) v here byte all) few in
    (
      out,
      rw (select_from, room) ran,
      λ r.
          let this = register_bit-set bytes pcr r four all small in
          elim (Bool-cases (is_listed r pcrs)) [
            | inl later ↦ elim (Bool-cases (r == pcr)) [
              | inl equal ↦ bits r ∙ rw (later, equal) refl
              | inr differs ↦ bits r ∙ rw (later, differs) refl
            ]
            | inr not_later ↦ elim (Bool-cases (r == pcr)) [
              | inl equal ↦ bits r ∙ rw (not_later, equal) (this ∙ rw equal refl)
              | inr differs ↦ bits r ∙ rw (not_later, differs) (this ∙ rw differs refl)
            ]
          ],
    )

zero_bit : (k : ℕ) → 0 / 2 ^ k % 2 ≡ 0
zero_bit k = omega arith

pub pcr_select_lem :
    (alg : ℕ) (pcrs : List ℕ)
    → All (λ pcr. pcr < 32) pcrs
    → (sel : PcrSelection) × (pcr_select alg pcrs ≡ some sel)
      × (sel.hash ≡ alg)
      × ((r : ℕ) → is_selected sel r ≡ (ltb r 24 && is_listed r pcrs))
unfolding pcr_select
pcr_select_lem alg pcrs few =
    let (out, ran, bits) =
      select_from_lem pcrs (replicate 4 0) refl
        (λ i. ground (arith, get_or-replicate {A = ℕ} 4 i 0)) few in
    (
      record { hash = alg; sizeof_select = 3; pcr_bytes = out },
      rw (pcr_select, ran) refl,
      refl,
      λ r.
          let counted : ltb (r / 8) 3 ≡ ltb r 24 = ground arith in
          let none_before : register_bit (replicate 4 0) r ≡ 0 =
            rw (get_or-replicate {A = ℕ} 4 (r / 8) 0) (zero_bit (r % 8)) in
          elim (Bool-cases (is_listed r pcrs)) [
            | inl listed ↦ rw (counted, bits r, listed) refl
            | inr unlisted ↦ rw (counted, bits r, unlisted, none_before) refl
          ],
    )
