-- ===== src/Ids/RoundTrip.antt =====
-- A name is read back from its code.
use dungeon_crawler.Base.{
  ◌==◌, ==_iff, Bool-cases, Option-cases, ◌>>=◌, length, get_elem?, ℕ, zero, suc, ◌+◌, ◌-◌, ◌*◌,
  ◌/◌, ◌%◌, ◌^◌, ◌≤◌, ◌<◌, ◌≡◌, refl, sym, ap, ◌∙◌, inl, inr, Option, some, List, [], ◌∷◌, arith,
  dec_lt,
}
use native.Mathlib.Nat.{
  pow-suc, add-mul, div-div-eq-div-mul, mul_assoc, mul_comm, pow-le-pow_right, div-eq_of_lt,
}
use dungeon_crawler.Ids.{
  charset, max_packed_len, find_index, encode_chars, encode_string, decode_chars, stray_bits,
  decode_string,
}

-- The number of codes of so many characters
abbrev place : ℕ → ℕ
place n = 2 ^ (6 * n)

place-suc : (n : ℕ) → place (suc n) ≡ place n * 64
place-suc n =
    let e : 6 * suc n ≡ suc (suc (suc (suc (suc (suc (6 * n)))))) = omega arith in
    ap (λ k. 2 ^ k) e
    ∙ omega (
      arith,
      pow-suc 2 (6 * n),
      pow-suc 2 (suc (6 * n)),
      pow-suc 2 (suc (suc (6 * n))),
      pow-suc 2 (suc (suc (suc (6 * n)))),
      pow-suc 2 (suc (suc (suc (suc (6 * n))))),
      pow-suc 2 (suc (suc (suc (suc (suc (6 * n)))))),
    )

scale : (q a : ℕ) → q * (a * 64) ≡ 64 * (q * a)
scale q a = sym (mul_assoc q a 64) ∙ mul_comm (q * a) 64

-- A multiple of one place is a multiple of each lower one.
place-multiple : (n m q : ℕ) → (p : ℕ) × (q * place (n + m) ≡ p * place n)
place-multiple n zero q = (q, ap (λ k. q * place k) (omega arith))
place-multiple n (suc m) q =
    let (p, e) = place-multiple n m q in
    let step : q * place (n + suc m) ≡ 64 * (q * place (n + m)) =
      ap (λ k. q * place k) (omega arith)
      ∙ ap (◌*◌ q) (place-suc (n + m))
      ∙ scale q (place (n + m)) in
    (64 * p, step ∙ ap (◌*◌ 64) e ∙ sym (mul_assoc 64 p (place n)))

-- The digits to the base 64, the first one lowest
abbrev value : List ℕ → ℕ
value [] = 0
value (d ∷ ds) = d + 64 * value ds

-- These digits are the places of these characters.
abbrev Spells : List ℕ → List ℕ → Type 0
Spells [] [] = Unit
Spells (c ∷ s) (d ∷ ds) = (get_elem? charset d ≡ some c) × (d < 62) × Spells s ds
Spells _ _ = ⊥

find_index_lem :
    (c : ℕ) (cs : List ℕ) (i : ℕ)
    → find_index c cs ≡ some i
    → (get_elem? cs i ≡ some c) × (i < length cs)
unfolding find_index
find_index_lem c [] i h = absurd (ground (arith, h))
find_index_lem c (a ∷ cs) i h = elim (Bool-cases (a == c)) [
  | inl e ↦
      let at_once : i ≡ 0 = ground (arith, h, e) in
      rw at_once (ap some ((==_iff a c).0 e), omega arith)
  | inr e ↦ elim (Option-cases (find_index c cs)) [
    | inl f ↦ absurd (ground (arith, h, e, f))
    | inr (j, f) ↦
        let later : i ≡ suc j = ground (arith, h, e, f) in
        let (at, small) = find_index_lem c cs j f in rw later (at, omega (arith, small))
  ]
]

-- One digit in front of the others
higher :
    (d v n packed : ℕ) → packed + d * place n + v * place (n + 1) ≡ packed + (d + 64 * v) * place n
higher d v n packed =
    let up : v * place (n + 1) ≡ 64 * (v * place n) =
      ap (λ k. v * place k) (omega arith) ∙ ap (◌*◌ v) (place-suc n) ∙ scale v (place n) in
    omega (arith, up, mul_assoc 64 v (place n), add-mul d (64 * v) (place n))

encode_chars_lem :
    (s : List ℕ) (n packed k : ℕ)
    → encode_chars s n packed ≡ some k
    → (ds : List ℕ) × Spells s ds × (k ≡ packed + value ds * place n)
unfolding encode_chars
encode_chars_lem [] n packed k h = ([], tt, ground (arith, h))
encode_chars_lem (c ∷ s) n packed k h = elim (Option-cases (find_index c charset)) [
  | inl e ↦ absurd (ground (arith, h, e))
  | inr (d, e) ↦
      let (at, small) = find_index_lem c charset d e in
      let rest : encode_chars s (n + 1) (packed + d * place n) ≡ some k = rw (← h) (rw e refl) in
      let (ds, spelt, sum) = encode_chars_lem s (n + 1) (packed + d * place n) k rest in
      (d ∷ ds, (at, small, spelt), sum ∙ higher d (value ds) n packed)
]

-- `decode_chars`, one digit after the other
abbrev spell : ℕ → ℕ → Option (List ℕ)
spell zero m = some []
spell (suc n) m = do c ← get_elem? charset (m % 64); s ← spell n (m / 64); some (c ∷ s)

decode_chars-spell : (n i m : ℕ) → decode_chars n i m ≡ spell n (m / place i)
unfolding decode_chars
decode_chars-spell zero i m = refl
decode_chars-spell (suc n) i m =
    let next : m / place (i + 1) ≡ m / place i / 64 =
      ap (λ k. m / place k) (omega arith)
      ∙ ap (◌/◌ m) (place-suc i)
      ∙ sym (div-div-eq-div-mul m (place i) 64) in
    rw (decode_chars-spell n (i + 1) m) (rw next refl)

spell-value :
    (s ds : List ℕ) (q : ℕ)
    → Spells s ds
    → spell (length s) (value ds + q * place (length s)) ≡ some s
spell-value [] [] q h = refl
spell-value [] (d ∷ ds) q h = absurd h
spell-value (c ∷ s) [] q h = absurd h
spell-value (c ∷ s) (d ∷ ds) q h =
    let up : q * place (suc (length s)) ≡ 64 * (q * place (length s)) =
      ap (◌*◌ q) (place-suc (length s)) ∙ scale q (place (length s)) in
    let low : (value (d ∷ ds) + q * place (suc (length s))) % 64 ≡ d = omega (arith, up, h.1) in
    let high : (value (d ∷ ds) + q * place (suc (length s))) / 64
        ≡ value ds + q * place (length s) =
      omega (arith, up, h.1) in
    rw low (rw high (rw h.0 (rw (spell-value s ds q h.2) refl)))

value-lt : (s ds : List ℕ) → Spells s ds → value ds < place (length s)
value-lt [] [] h = omega arith
value-lt [] (d ∷ ds) h = absurd h
value-lt (c ∷ s) [] h = absurd h
value-lt (c ∷ s) (d ∷ ds) h = omega (arith, h.1, value-lt s ds h.2, place-suc (length s))

decode_string_lem :
    (n k : ℕ) (s : List ℕ)
    → k / 2 ^ 60 % 2 ^ 4 ≡ n
    → n ≤ max_packed_len
    → decode_chars n 0 k ≡ some s
    → stray_bits n k ≡ 0
    → decode_string k ≡ some s
unfolding decode_string
decode_string_lem n k s len short chars clean = rw len (ground (arith, short, chars, clean))

clean : (n k v : ℕ) → k % 2 ^ 60 ≡ v → v < place n → stray_bits n k ≡ 0
unfolding stray_bits
clean n k v low small = ap (λ m. m / place n) low ∙ div-eq_of_lt small

-- A name that can be packed has a code of 64 bits, and this code is unpacked to the name. So two names never have the
-- same code.
pub decode-encode_string :
    (s : List ℕ) (k : ℕ) → encode_string s ≡ some k → (decode_string k ≡ some s) × (k < 2 ^ 64)
unfolding encode_string
decode-encode_string s k h = elim (dec_lt max_packed_len (length s)) [
  | yes long ↦ absurd (ground (arith, long, h))
  | no short ↦
      let n = length s in
      let (ds, spelt, sum) = encode_chars_lem s 0 (n * 2 ^ 60) k (ground (arith, short, h)) in
      let v = value ds in
      let in_place = value-lt s ds spelt in
      let bound = pow-le-pow_right {n = 2} (omega arith) {i = 6 * n} {j = 60} (omega arith) in
      let (p, e) = place-multiple n (10 - n) n in
      let whole : 10 ≡ n + (10 - n) = omega (arith, short) in
      let multiple : n * 2 ^ 60 ≡ p * place n = ap (λ m. n * place m) whole ∙ e in
      let code : k ≡ v + p * place n = omega (arith, sum, multiple) in
      let at_start : k / place 0 ≡ v + p * place n = omega (arith, code) in
      let chars : decode_chars n 0 k ≡ some s =
        decode_chars-spell n 0 k ∙ ap (spell n) at_start ∙ spell-value s ds p spelt in
      let low : k % 2 ^ 60 ≡ v = omega (arith, sum, in_place, bound) in
      (
        decode_string_lem n k s (omega (arith, sum, in_place, bound, short)) (omega arith) chars
            (clean n k v low in_place),
        omega (arith, sum, in_place, bound, short),
      )
]
