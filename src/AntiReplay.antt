-- ===== src/AntiReplay.antt =====
-- src/anti_replay.rs: the sliding window of RFC 6479 over a ring of 64 words of 32 bits.
pub mod Words
pub mod Window
pub mod Replay
pub mod Tests
use wireguard_rs.Base.{
  ℕ, zero, suc, ◌+◌, ◌-◌, ◌*◌, ◌/◌, ◌^◌, ◌≡◌, refl, Bool, true, false, List, bit_and, bit_or, ltb,
  leb, ◌==◌, if◌then◌else◌, get_or, set, replicate, Result, ok, err, Error,
}

abbrev pub bitmap_bitlen : ℕ
bitmap_bitlen = 2048

abbrev pub size_of_integer : ℕ
size_of_integer = 32

abbrev pub bitmap_len : ℕ
bitmap_len = bitmap_bitlen / size_of_integer

abbrev pub bitmap_index_mask : ℕ
bitmap_index_mask = bitmap_len - 1

abbrev pub redundant_bit_shifts : ℕ
redundant_bit_shifts = 5

abbrev pub bitmap_loc_mask : ℕ
bitmap_loc_mask = size_of_integer - 1

abbrev pub window_size : ℕ
window_size = bitmap_bitlen - size_of_integer

-- `bitmap` is an array of `bitmap_len` words of 32 bits; `last` is a `u64`.
pub record AntiReplay : Type 0 where
  pub bitmap : List ℕ
  pub last : ℕ

abbrev pub empty_bitmap : List ℕ
empty_bitmap = replicate bitmap_len 0

unfoldable pub new : AntiReplay
new = record { last = 0; bitmap = empty_bitmap }

-- Every index is masked below `bitmap_len`, so the default of `get_or` is never read.
unfoldable pub check : AntiReplay → ℕ → Bool
check ar seq =
    if ltb ar.last seq
    then true
    else if ltb window_size (ar.last - seq)
    then false
    else (let bit_location = bit_and seq bitmap_loc_mask in
        let index = bit_and (seq / 2 ^ redundant_bit_shifts) bitmap_index_mask in
        bit_and (get_or ar.bitmap index 0) (2 ^ bit_location) == 0)

-- `for i in 0..diff`: the loop from `i` on, with `left` rounds to go.
unfoldable pub clear_words : ℕ → ℕ → ℕ → List ℕ → List ℕ
clear_words zero i index_cur bitmap = bitmap
clear_words (suc left) i index_cur bitmap =
    let real_index = bit_and (index_cur + i + 1) bitmap_index_mask in
    clear_words left (i + 1) index_cur (set bitmap real_index 0)

-- The branch of `update_store` for a number above `last`.
unfoldable pub advance : AntiReplay → ℕ → AntiReplay
unfolding clear_words
advance ar seq =
    let index = seq / 2 ^ redundant_bit_shifts in
    let index_cur = ar.last / 2 ^ redundant_bit_shifts in
    let diff = index - index_cur in
    record {
      bitmap = if leb bitmap_len diff then empty_bitmap else clear_words diff 0 index_cur ar.bitmap;
      last = seq;
    }

-- `self.bitmap[index & MASK] |= 1 << bit_location`
unfoldable pub set_bit : AntiReplay → ℕ → AntiReplay
set_bit ar seq =
    let index = bit_and (seq / 2 ^ redundant_bit_shifts) bitmap_index_mask in
    let bit_location = bit_and seq bitmap_loc_mask in
    record ar {
      bitmap = set ar.bitmap index (bit_or (get_or ar.bitmap index 0) (2 ^ bit_location));
    }

unfoldable pub update_store : AntiReplay → ℕ → AntiReplay
unfolding advance set_bit
update_store ar seq = set_bit (if ltb ar.last seq then advance ar seq else ar) seq

-- A refused number leaves the window as it was.
unfoldable pub update : AntiReplay → ℕ → AntiReplay × Result (Unit {0})
update ar seq =
    if check ar seq then (update_store ar seq, ok tt) else (ar, err Error.replayed_nonce)
