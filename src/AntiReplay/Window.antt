-- ===== src/AntiReplay/Window.antt =====
-- The window against the set of numbers accepted so far.
use wireguard_rs.Base.{
  ℕ, ◌+◌, ◌-◌, ◌*◌, ◌/◌, ◌%◌, ◌^◌, ◌≤◌, ◌<◌, ◌≡◌, ◌≢◌, refl, sym, ap, ◌∙◌, Bool, true, false, not,
  inl, inr, List, bit_and, bit_or, ltb, leb, ◌==◌, if◌then◌else◌, get_or, set, length, length-set,
  get_or-set_self, get_or-set_ne, get_or-replicate, bit, bit-lt, bit-zero, bit_and-pow,
  bit-bit_or_pow_self, bit-bit_or_pow_ne, Bool-cases, dec_lt, ℕ_discrete, arith,
}
use native.Mathlib.Nat.{one-le-pow}
use wireguard_rs.AntiReplay.{
  AntiReplay, window_size, bitmap_len, new, check, clear_words, advance, set_bit, update_store,
}
use wireguard_rs.AntiReplay.Words.{
  index_lem, location_lem, length-clear_words, clear_words_outside, clear_words_inside,
}

-- The bit that the bitmap keeps for a number.
abbrev pub seen_bit : List ℕ → ℕ → ℕ
seen_bit bm s = bit (get_or bm (s / 32 % 64) 0) (s % 32)

abbrev pub to_bit : Bool → ℕ
to_bit true = 1
to_bit false = 0

-- The bitmap agrees with a set of numbers on the 64 blocks that end at the block of `top`.
pub record Tracks (accepted : ℕ → Bool) (bm : List ℕ) (top : ℕ) : Type 0 where
  pub size : length bm ≡ 64
  pub agree :
      (s : ℕ) → top / 32 ≤ s / 32 + 63 → s / 32 ≤ top / 32 → seen_bit bm s ≡ to_bit (accepted s)
  pub below : (s : ℕ) → accepted s ≡ true → s ≤ top

abbrev pub insert : ℕ → (ℕ → Bool) → ℕ → Bool
insert seq accepted s = if s == seq then true else accepted s

-- What the window promises: larger is always good, a number in the window is good once, and an
-- older one is refused.
abbrev pub admits : (ℕ → Bool) → ℕ → ℕ → Bool
admits accepted top s =
    if ltb top s then true else if ltb window_size (top - s) then false else not (accepted s)

pub new-Tracks : Tracks (λ _. false) new.bitmap new.last
unfolding new
new-Tracks = record {
  size = refl;
  agree = λ s p q.
      ap (λ (w : ℕ). bit w (s % 32)) (get_or-replicate 64 (s / 32 % 64) 0) ∙ bit-zero (s % 32);
  below = λ s h. cc;
}

masked_zero : (w k : ℕ) → (bit_and w (2 ^ k) == 0) ≡ (bit w k == 0)
masked_zero w k = elim (ℕ_discrete (bit w k) 0) [
  | yes e ↦ ground (arith, bit_and-pow w k, ap (λ (t : ℕ). t * 2 ^ k) e)
  | no ne ↦
      let one : bit w k ≡ 1 = omega (arith, bit-lt w k) in
      ground (arith, bit_and-pow w k, ap (λ (t : ℕ). t * 2 ^ k) one, one-le-pow k 2)
]

pub check-admits :
    (accepted : ℕ → Bool) (ar : AntiReplay) (s : ℕ)
    → Tracks accepted ar.bitmap ar.last
    → check ar s ≡ admits accepted ar.last s
unfolding check
check-admits accepted ar s t =
    rw (index_lem (s / 32), location_lem s, masked_zero) (ground (arith, t.agree s, t.below s))

advance-Tracks :
    (accepted : ℕ → Bool) (ar : AntiReplay) (s : ℕ)
    → Tracks accepted ar.bitmap ar.last
    → ar.last < s
    → Tracks accepted (advance ar s).bitmap (advance ar s).last
unfolding advance
advance-Tracks accepted ar s t h = elim (Bool-cases (leb bitmap_len (s / 32 - ar.last / 32))) [
  | inl far ↦ rw far (record {
    size = refl;
    agree = λ r p q.
        ap (λ (w : ℕ). bit w (r % 32)) (get_or-replicate 64 (r / 32 % 64) 0)
        ∙ bit-zero (r % 32)
        ∙ sym (ap to_bit (fresh r (ground arith)));
    below = λ r e. below r e;
  })
  | inr near ↦ rw near (record {
    size = length-clear_words diff 0 (ar.last / 32) ar.bitmap ∙ t.size;
    agree = λ r p q. elim (dec_lt (ar.last / 32) (r / 32)) [
      | yes new_block ↦ cleared r new_block q ∙ sym (ap to_bit (fresh r (omega arith)))
      | no old_block ↦ kept r (ground arith) (omega arith) p (omega arith)
    ];
    below = λ r e. below r e;
  })
]
  where
    diff : ℕ
    diff = s / 32 - ar.last / 32

    below : (r : ℕ) → accepted r ≡ true → r ≤ s
    below r e = omega (arith, t.below r e)

    fresh : (r : ℕ) → ar.last < r → accepted r ≡ false
    fresh r g = ground (arith, t.below r)

    cleared :
        (r : ℕ)
        → ar.last / 32 < r / 32
        → r / 32 ≤ s / 32
        → seen_bit (clear_words diff 0 (ar.last / 32) ar.bitmap) r ≡ 0
    cleared r p q =
        ap (λ (w : ℕ). bit w (r % 32))
          (ap (λ (b : ℕ). get_or (clear_words diff 0 (ar.last / 32) ar.bitmap) (b % 64) 0)
              (omega arith)
            ∙ clear_words_inside diff 0 (ar.last / 32) (r / 32 - ar.last / 32 - 1) ar.bitmap t.size
                (omega arith) (omega arith))
        ∙ bit-zero (r % 32)

    kept :
        (r : ℕ)
        → diff < 64
        → r / 32 ≤ ar.last / 32
        → s / 32 ≤ r / 32 + 63
        → ar.last / 32 ≤ r / 32 + 63
        → seen_bit (clear_words diff 0 (ar.last / 32) ar.bitmap) r ≡ to_bit (accepted r)
    kept r few p q q' =
        ap (λ (w : ℕ). bit w (r % 32))
          (clear_words_outside diff 0 (ar.last / 32) (r / 32 % 64) ar.bitmap
            (λ k a b e. absurd (omega arith)))
        ∙ t.agree r q' p

set_bit-Tracks :
    (accepted : ℕ → Bool) (ar : AntiReplay) (s : ℕ)
    → Tracks accepted ar.bitmap ar.last
    → ar.last / 32 ≤ s / 32 + 63
    → s ≤ ar.last
    → Tracks (insert s accepted) (set_bit ar s).bitmap (set_bit ar s).last
unfolding set_bit
set_bit-Tracks accepted ar s t p q = record {
  size = length-set _ _ _ ∙ t.size;
  agree = λ r a b. rw (index_lem (s / 32), location_lem s) (split r a b);
  below = λ r h. ground (arith, t.below r);
}
  where
    word : ℕ
    word = get_or ar.bitmap (s / 32 % 64) 0

    marked : List ℕ
    marked = set ar.bitmap (s / 32 % 64) (bit_or word (2 ^ (s % 32)))

    other : (r : ℕ) → r ≢ s → to_bit (accepted r) ≡ to_bit (insert s accepted r)
    other r ne = ground arith

    hit : (r : ℕ) → r ≡ s → insert s accepted r ≡ true
    hit r e = ground arith

    in_block :
        (r : ℕ)
        → ar.last / 32 ≤ r / 32 + 63
        → r / 32 ≤ ar.last / 32
        → r / 32 ≡ s / 32
        → bit (bit_or word (2 ^ (s % 32))) (r % 32) ≡ to_bit (insert s accepted r)
    in_block r a b block = elim (ℕ_discrete (s % 32) (r % 32)) [
      | yes same ↦
          ap (λ (k : ℕ). bit (bit_or word (2 ^ (s % 32))) k) (sym same)
          ∙ bit-bit_or_pow_self word (s % 32)
          ∙ ap to_bit (sym (hit r (omega arith)))
      | no ne ↦
          bit-bit_or_pow_ne word (s % 32) (r % 32) ne
          ∙ ap (λ (n : ℕ). bit (get_or ar.bitmap (n % 64) 0) (r % 32)) (sym block)
          ∙ t.agree r a b
          ∙ other r (λ e. ne (ap (λ (n : ℕ). n % 32) (sym e)))
    ]

    split :
        (r : ℕ)
        → ar.last / 32 ≤ r / 32 + 63
        → r / 32 ≤ ar.last / 32
        → seen_bit marked r ≡ to_bit (insert s accepted r)
    split r a b = elim (ℕ_discrete (r / 32) (s / 32)) [
      | no far ↦
          ap (λ (w : ℕ). bit w (r % 32))
            (get_or-set_ne ar.bitmap (s / 32 % 64) (r / 32 % 64) (bit_or word (2 ^ (s % 32))) 0
              (λ e. absurd (omega arith)))
          ∙ t.agree r a b
          ∙ other r (λ e. far (ap (λ (n : ℕ). n / 32) e))
      | yes block ↦
          ap (λ (n : ℕ). bit (get_or marked (n % 64) 0) (r % 32)) block
          ∙ ap (λ (w : ℕ). bit w (r % 32))
              (get_or-set_self ar.bitmap (s / 32 % 64) (bit_or word (2 ^ (s % 32))) 0
                (omega (arith, t.size)))
          ∙ in_block r a b block
    ]

-- One step of the window against one step of the set.
pub update-Tracks :
    (accepted : ℕ → Bool) (ar : AntiReplay) (s : ℕ)
    → Tracks accepted ar.bitmap ar.last
    → check ar s ≡ true
    → Tracks (insert s accepted) (update_store ar s).bitmap (update_store ar s).last
unfolding update_store
update-Tracks accepted ar s t c = elim (Bool-cases (ltb ar.last s)) [
  | inl up ↦
      let above : ar.last < s = ground arith in
      rw up (
        set_bit-Tracks accepted (advance ar s) s (advance-Tracks accepted ar s t above)
          (omega arith) (omega arith))
  | inr down ↦
      rw down (
        set_bit-Tracks accepted ar s t (ground (arith, check-admits accepted ar s t))
          (ground arith))
]
