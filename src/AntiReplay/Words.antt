-- ===== src/AntiReplay/Words.antt =====
-- The ring of words: what the masks select, and what the clearing loop leaves.
use wireguard_rs.Base.{
  ℕ, zero, suc, ◌+◌, ◌%◌, ◌≤◌, ◌<◌, ◌≡◌, ◌≢◌, refl, ap, ◌∙◌, List, bit_and, get_or, set, length,
  length-set, get_or-set_self, get_or-set_ne, get_or-set_default, bit_and_mask, arith, ℕ_discrete,
}
use wireguard_rs.AntiReplay.{bitmap_index_mask, bitmap_loc_mask, clear_words}

pub index_lem : (x : ℕ) → bit_and x bitmap_index_mask ≡ x % 64
index_lem x = bit_and_mask 6 x

pub location_lem : (x : ℕ) → bit_and x bitmap_loc_mask ≡ x % 32
location_lem x = bit_and_mask 5 x

pub length-clear_words :
    (left i cur : ℕ) (bm : List ℕ) → length (clear_words left i cur bm) ≡ length bm
unfolding clear_words
length-clear_words zero i cur bm = refl
length-clear_words (suc left) i cur bm =
    length-clear_words left (i + 1) cur _ ∙ length-set bm (bit_and (cur + i + 1) 63) 0

-- A word that no round names is left alone.
pub clear_words_outside :
    (left i cur j : ℕ) (bm : List ℕ)
    → ((t : ℕ) → i ≤ t → t < i + left → (cur + t + 1) % 64 ≢ j)
    → get_or (clear_words left i cur bm) j 0 ≡ get_or bm j 0
unfolding clear_words
clear_words_outside zero i cur j bm h = refl
clear_words_outside (suc left) i cur j bm h =
    clear_words_outside left (i + 1) cur j _ (λ t p q. h t (omega arith) (omega arith))
    ∙ get_or-set_ne bm (bit_and (cur + i + 1) 63) j 0 0
        (λ e. h i (omega arith) (omega arith) (omega (arith, index_lem (cur + i + 1))))

clear_words_zero :
    (left i cur j : ℕ) (bm : List ℕ)
    → get_or bm j 0 ≡ 0
    → get_or (clear_words left i cur bm) j 0 ≡ 0
unfolding clear_words
clear_words_zero zero i cur j bm h = h
clear_words_zero (suc left) i cur j bm h =
    clear_words_zero left (i + 1) cur j _ (get_or-set_default bm (bit_and (cur + i + 1) 63) j 0 h)

-- A word that some round names is zero.
pub clear_words_inside :
    (left i cur t : ℕ) (bm : List ℕ)
    → length bm ≡ 64
    → i ≤ t
    → t < i + left
    → get_or (clear_words left i cur bm) ((cur + t + 1) % 64) 0 ≡ 0
unfolding clear_words
clear_words_inside zero i cur t bm len p q = absurd (omega arith)
clear_words_inside (suc left) i cur t bm len p q = elim (ℕ_discrete i t) [
  | yes here ↦ clear_words_zero left (i + 1) cur _ _ (
      ap (λ (k : ℕ). get_or (set bm k 0) ((cur + t + 1) % 64) 0) (same here)
      ∙ get_or-set_self bm ((cur + t + 1) % 64) 0 0 (omega arith))
  | no later ↦
      clear_words_inside left (i + 1) cur t _ (length-set bm (bit_and (cur + i + 1) 63) 0 ∙ len)
        (omega arith) (omega arith)
]
  where
    same : i ≡ t → bit_and (cur + i + 1) 63 ≡ (cur + t + 1) % 64
    same e = omega (arith, index_lem (cur + i + 1))
