-- ===== src/Index/Prefix.antt =====
-- Version 4 entries: names compressed against the name before.
use gitz.Common.{
  ℕ, zero, suc, ◌-◌, ◌/◌, ◌%◌, ◌^◌, ◌<◌, ◌≤◌, ◌≡◌, refl, min, false, [], ◌∷◌, ◌++◌, append_assoc,
  Bytes, All, ok, length, take, drop, arith, >>=-eq-ok, ok-injective, ◌∙◌, take-append-drop,
}
use gitz.Index.{v4_entry, fixed_header, common_prefix, vlq, name_mask}
use gitz.Index.Reader.{
  read_entry, read_entry_name, do_read_entry_name_v4, name_base, pad_entry, read_until_loop,
  read_varint,
}
use gitz.Index.Fields.{read_stat-fixed_header, read_until_loop-append}
use gitz.Index.Vlq.{read_varint-vlq}
use gitz.Index.RoundTrip.{IsPath, entry_of, read_entry_steps, plain_flags}

common_prefix-le :
    (prev name : Bytes)
    → (common_prefix prev name ≤ length prev) × (common_prefix prev name ≤ length name)
unfolding common_prefix
common_prefix-le [] name = omega arith
common_prefix-le (q ∷ prev) [] = omega arith
common_prefix-le (q ∷ prev) (c ∷ name) = ground (arith, common_prefix-le prev name)

-- The common prefix is one: both names begin with it.
take-common_prefix :
    (prev name : Bytes) → take (common_prefix prev name) prev ≡ take (common_prefix prev name) name
unfolding common_prefix
take-common_prefix [] name = refl
take-common_prefix (q ∷ prev) [] = refl
take-common_prefix (q ∷ prev) (c ∷ name) = ground (arith, take-common_prefix prev name)

name_base-take :
    (prev : Bytes) (k : ℕ) → k ≤ length prev → name_base prev (length prev - k) ≡ ok (take k prev)
unfolding name_base
name_base-take [] zero h = refl
name_base-take [] (suc k) h = absurd (omega arith)
name_base-take (c ∷ prev) k h =
    let kept : suc (length prev) - (suc (length prev) - k) ≡ k = omega arith in
    rw kept (ground arith)

All-drop : (P : ℕ → Type 0) (k : ℕ) (xs : Bytes) → All P xs → All P (drop k xs)
All-drop P zero xs h = h
All-drop P (suc k) [] h = h
All-drop P (suc k) (x ∷ xs) h = All-drop P k xs h.1

length-drop-le : (k : ℕ) (xs : Bytes) → length (drop k xs) ≤ length xs
length-drop-le zero xs = omega arith
length-drop-le (suc k) [] = omega arith
length-drop-le (suc k) (x ∷ xs) = omega (arith, length-drop-le k xs)

-- The compressed name is read back against the name that it was compressed against.
do_read_entry_name_v4-append :
    (prev name s : Bytes)
    → length prev < 2 ^ 63
    → IsPath name
    → do_read_entry_name_v4 prev (
        vlq (length prev - common_prefix prev name)
        ++ (drop (common_prefix prev name) name ++ (0 ∷ s)))
      ≡ ok (name, s)
unfolding do_read_entry_name_v4
do_read_entry_name_v4-append prev name s short p =
    let k : ℕ = common_prefix prev name in
    let (in_prev, in_name) = common_prefix-le prev name in
    let strip : read_varint (vlq (length prev - k) ++ (drop k name ++ (0 ∷ s)))
        ≡ ok (length prev - k, drop k name ++ (0 ∷ s)) =
      ground (arith, read_varint-vlq (length prev - k) (drop k name ++ (0 ∷ s))) in
    let suffix : read_until_loop 0 0 (drop k name ++ (0 ∷ s)) ≡ ok (drop k name, s) =
      read_until_loop-append (drop k name) s 0 (All-drop _ k name p.free)
        (omega (arith, length-drop-le k name, p.fits)) in
    rw (
      strip,
      name_base-take prev k in_prev,
      suffix,
      take-common_prefix prev name,
      take-append-drop k name,
    )

pad_entry-v4 : (n c : ℕ) (name s : Bytes) → pad_entry 4 n name c s ≡ ok (tt, s)
unfolding pad_entry
pad_entry-v4 n c name s = refl

read_entry_name-v4 :
    (flags : ℕ) (last name s s' : Bytes)
    → do_read_entry_name_v4 last s ≡ ok (name, s')
    → read_entry_name 4 last flags s ≡ ok ((name, 0), s')
unfolding read_entry_name
read_entry_name-v4 flags last name s s' h = rw h

-- A fixture entry of version 4 with an object id of 20 bytes, compressed against a name `prev`
-- of less than 2 ^ 63 bytes, is read back by a decoder that has just read `prev`, whatever
-- follows the entry. The name is free of NUL and no longer than the decoder allows.
pub read_entry-v4_entry :
    (name prev h s : Bytes) (size : ℕ) {o : Bytes}
    → length prev < 2 ^ 63
    → IsPath name
    → length h ≡ 20
    → v4_entry name prev h size ≡ ok o
    → read_entry 4 prev (o ++ s) ≡ ok (entry_of 1 0 1 0 size h false false name, s)
unfolding v4_entry
read_entry-v4_entry name prev h s size short p len e =
    let flags : ℕ = min (length name) name_mask in
    let (o1, front, whole) = >>=-eq-ok (fixed_header 1 0 1 0 size h flags) _ e in
    let stage : flags / 2 ^ 12 % 4 ≡ 0 = omega arith in
    rw (← ok-injective whole) (
      simp append_assoc (
        read_entry_steps 4 prev _ (read_stat-fixed_header 1 0 1 0 size flags h o1 _ len front) refl
          refl (plain_flags name _)
          (read_entry_name-v4 flags prev name _ s
            (do_read_entry_name_v4-append prev name s short p))
          (pad_entry-v4 62 0 name s)
        ∙ rw stage))
