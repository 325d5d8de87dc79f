-- ===== src/Wire/Crc32c/Detect.antt =====
-- python/src/brain_db_sdk/wire/crc32c.py: checksums of byte strings that differ in a window.
use brain_sdk.Prelude.{
  ℕ, zero, suc, ◌+◌, ◌*◌, ◌/◌, ◌%◌, ◌^◌, ◌≤◌, ◌<◌, bit_xor, ◌≡◌, ◌≢◌, refl, sym, ap, ap₂, ◌∙◌, ◌⊎◌,
  inl, inr, List, [], ◌∷◌, ◌++◌, arith, length,
}
use brain_sdk.Prelude.Bits.{
  bit_xor_assoc, bit_xor_comm, bit_xor-zero, bit_xor-lt, bit_xor_inj, bit_xor-eq-add,
}
use brain_sdk.Prelude.Bytes.{IsByte, IsBytes}
use brain_sdk.Wire.Crc32c.{shift_step, shift_steps, update, crc_loop, crc32c}
use brain_sdk.Wire.Crc32c.Linear.{
  even_step, odd_step, shift_step-lt, shift_steps-bit_xor, shift_steps-add,
}
use brain_sdk.Wire.Crc32c.Reference.{update-eq-shift_steps, update-lt, crc_loop-lt}

parity : (a : ℕ) → (a % 2 ≡ 0) ⊎ (a % 2 ≡ 1)
parity a = omega arith

-- The highest digit of the polynomial tells an odd register from an even one after the step.
odd_step_high :
    (a : ℕ) → a < 2 ^ 32 → a % 2 ≡ 1 → shift_step a ≡ bit_xor (a / 2) 0x02F63B78 + 2 ^ 31
odd_step_high a h odd =
    odd_step a odd
    ∙ sym (bit_xor_assoc (a / 2) 0x02F63B78 (1 * 2 ^ 31))
    ∙ bit_xor-eq-add 31 (bit_xor (a / 2) 0x02F63B78) 1
        (bit_xor-lt 31 (a / 2) 0x02F63B78 (omega arith) (omega arith))

shift_step-inj : (a b : ℕ) → a < 2 ^ 32 → b < 2 ^ 32 → shift_step a ≡ shift_step b → a ≡ b
shift_step-inj a b ha hb e = elim (parity a) [
  | inl ea ↦ elim (parity b) [
    | inl eb ↦ omega (arith, even_step a ea, even_step b eb)
    | inr ob ↦ absurd (omega (arith, even_step a ea, odd_step_high b hb ob))
  ]
  | inr oa ↦ elim (parity b) [
    | inl eb ↦ absurd (omega (arith, odd_step_high a ha oa, even_step b eb))
    | inr ob ↦
        let low : bit_xor (a / 2) 0x02F63B78 ≡ bit_xor (b / 2) 0x02F63B78 =
          omega (arith, odd_step_high a ha oa, odd_step_high b hb ob) in
        omega (arith, bit_xor_inj (a / 2) (b / 2) 0x02F63B78 low)
  ]
]

shift_steps-inj : (k a b : ℕ) → a < 2 ^ 32 → b < 2 ^ 32 → shift_steps k a ≡ shift_steps k b → a ≡ b
unfolding shift_steps
shift_steps-inj zero a b ha hb e = e
shift_steps-inj (suc k) a b ha hb e =
    shift_step-inj a b ha hb (shift_steps-inj k _ _ (shift_step-lt a ha) (shift_step-lt b hb) e)

update-inj :
    (c d byte : ℕ) → c < 2 ^ 32 → d < 2 ^ 32 → IsByte byte → update c byte ≡ update d byte → c ≡ d
update-inj c d byte hc hd hb e = bit_xor_inj c d byte (
    shift_steps-inj 8 _ _ (bit_xor-lt 32 c byte hc (omega arith))
      (bit_xor-lt 32 d byte hd (omega arith))
      (sym (update-eq-shift_steps c byte hb) ∙ e ∙ update-eq-shift_steps d byte hb))

crc_loop-inj :
    (bytes : List ℕ) (c d : ℕ)
    → c < 2 ^ 32
    → d < 2 ^ 32
    → IsBytes bytes
    → crc_loop c bytes ≡ crc_loop d bytes
    → c ≡ d
unfolding crc_loop
crc_loop-inj [] c d hc hd h e = e
crc_loop-inj (byte ∷ rest) c d hc hd h e =
    update-inj c d byte hc hd h.0
      (crc_loop-inj rest _ _ (update-lt c byte hc h.0) (update-lt d byte hd h.0) h.1 e)

pub crc_loop-append : (xs ys : List ℕ) (c : ℕ) → crc_loop c (xs ++ ys) ≡ crc_loop (crc_loop c xs) ys
unfolding crc_loop
crc_loop-append [] ys c = refl
crc_loop-append (x ∷ xs) ys c = crc_loop-append xs ys (update c x)

-- The bytes of a window as one number, the first byte lowest.
abbrev word : List ℕ → ℕ
word [] = 0
word (b ∷ bs) = b + word bs * 2 ^ 8

word-lt_four : (u : List ℕ) → length u ≤ 4 → IsBytes u → word u < 2 ^ 32
word-lt_four [] h b = omega arith
word-lt_four (w ∷ []) h b = omega arith
word-lt_four (w ∷ x ∷ []) h b = omega arith
word-lt_four (w ∷ x ∷ y ∷ []) h b = omega arith
word-lt_four (w ∷ x ∷ y ∷ z ∷ []) h b = omega arith
word-lt_four (w ∷ x ∷ y ∷ z ∷ t ∷ u) h b = absurd (omega arith)

word-inj : (u v : List ℕ) → length u ≡ length v → IsBytes u → IsBytes v → word u ≡ word v → u ≡ v
word-inj [] [] n hu hv e = refl
word-inj [] (b ∷ v) n hu hv e = absurd (omega arith)
word-inj (a ∷ u) [] n hu hv e = absurd (omega arith)
word-inj (a ∷ u) (b ∷ v) n hu hv e =
    ap₂ ◌∷◌ (omega arith) (word-inj u v (omega arith) hu.1 hv.1 (omega arith))

-- A whole window goes through the register as one number.
crc_loop-eq-word :
    (u : List ℕ) (c : ℕ)
    → IsBytes u
    → crc_loop c u ≡ shift_steps (8 * length u) (bit_xor c (word u))
unfolding crc_loop shift_steps
crc_loop-eq-word [] c h = sym (bit_xor-zero c)
crc_loop-eq-word (b ∷ u) c h =
    ap (λ d. crc_loop d u) (update-eq-shift_steps c b h.0)
    ∙ crc_loop-eq-word u (shift_steps 8 (bit_xor c b)) h.1
    ∙ ap (shift_steps (8 * length u)) (sym (shift_steps-bit_xor 8 (bit_xor c b) (word u)))
    ∙ ap (λ t. shift_steps (8 * length u) (shift_steps 8 t)) joined
    ∙ sym (shift_steps-add 8 (8 * length u) (bit_xor c (word (b ∷ u))))
    ∙ ap (λ k. shift_steps k (bit_xor c (word (b ∷ u)))) lengths
  where
    lengths : 8 + 8 * length u ≡ 8 * suc (length u)
    lengths = omega arith

    joined : bit_xor (bit_xor c b) (word u * 2 ^ 8) ≡ bit_xor c (word (b ∷ u))
    joined =
        bit_xor_assoc c b (word u * 2 ^ 8)
        ∙ ap (bit_xor c) (bit_xor-eq-add 8 b (word u) (omega arith))

-- Two byte strings that agree but for a window of at most four bytes, at the same place and of the
-- same length in both, have different checksums.
pub crc32c_detects_window :
    (xs u v zs : List ℕ)
    → IsBytes xs
    → IsBytes u
    → IsBytes v
    → IsBytes zs
    → length u ≡ length v
    → length u ≤ 4
    → u ≢ v
    → crc32c (xs ++ (u ++ zs)) ≢ crc32c (xs ++ (v ++ zs))
unfolding crc32c
crc32c_detects_window xs u v zs hx hu hv hz same short ne e = ne (word-inj u v same hu hv words)
  where
    c : ℕ
    c = crc_loop 0xffff_ffff xs

    hc : c < 2 ^ 32
    hc = crc_loop-lt 0xffff_ffff xs (omega arith) hx

    after : crc_loop (crc_loop c u) zs ≡ crc_loop (crc_loop c v) zs
    after =
        sym (crc_loop-append xs (u ++ zs) 0xffff_ffff ∙ crc_loop-append u zs c)
        ∙ bit_xor_inj _ _ 0xffff_ffff e
        ∙ (crc_loop-append xs (v ++ zs) 0xffff_ffff ∙ crc_loop-append v zs c)

    states : crc_loop c u ≡ crc_loop c v
    states = crc_loop-inj zs _ _ (crc_loop-lt c u hc hu) (crc_loop-lt c v hc hv) hz after

    xors : bit_xor c (word u) ≡ bit_xor c (word v)
    xors =
        shift_steps-inj (8 * length u) _ _ (bit_xor-lt 32 c (word u) hc (word-lt_four u short hu))
          (bit_xor-lt 32 c (word v) hc (word-lt_four v (omega arith) hv))
          (sym (crc_loop-eq-word u c hu)
            ∙ states
            ∙ crc_loop-eq-word v c hv
            ∙ ap (λ n. shift_steps (8 * n) (bit_xor c (word v))) (sym same))

    words : word u ≡ word v
    words =
        bit_xor_inj (word u) (word v) c (bit_xor_comm (word u) c ∙ xors ∙ bit_xor_comm c (word v))
