-- ===== src/Media/Frames/Order.antt =====
-- The order of the packets in a key frame (src/FtlMediaConnection.cpp).
use mathlib.Core.List.{Perm}
use mathlib.Core.List.Perm
use janus_ftl_plugin.Prelude.{
  ℕ, zero, suc, ◌+◌, ◌%◌, ◌^◌, ◌≤◌, ◌≡◌, ◌≢◌, ◌↔◌, refl, true, false, List, [], ◌∷◌, map, inl, inr,
  reverse, arith, length, ltb, Bool-cases,
}
use janus_ftl_plugin.Rtp.Packet.{RtpPacket, header}
use janus_ftl_plugin.Media.Frames.{
  Frame, is_sequential, starts_sequential, is_complete_list, is_complete, insert_from_back,
  insert_packet_in_sequence_order,
}

-- From the back to the front the numbers do not rise, and all are at most `hi`.
abbrev Falls : ℕ → List RtpPacket → Type 0
Falls hi [] = Unit {0}
Falls hi (p ∷ ps) = (p.extended_sequence_num ≤ hi) × Falls p.extended_sequence_num ps

abbrev pub IsSorted : List RtpPacket → Type 0
IsSorted [] = Unit {0}
IsSorted (p ∷ ps) = Falls p.extended_sequence_num ps

insert_from_back-Falls :
    (hi : ℕ) (p : RtpPacket) (ps : List RtpPacket)
    → p.extended_sequence_num ≤ hi
    → Falls hi ps
    → Falls hi (insert_from_back p ps)
unfolding insert_from_back
insert_from_back-Falls hi p [] h f = (h, tt)
insert_from_back-Falls hi p (q ∷ qs) h f =
    ground (arith, insert_from_back-Falls q.extended_sequence_num p qs)

insert_from_back-IsSorted :
    (p : RtpPacket) (ps : List RtpPacket) → IsSorted ps → IsSorted (insert_from_back p ps)
unfolding insert_from_back
insert_from_back-IsSorted p [] f = tt
insert_from_back-IsSorted p (q ∷ qs) f =
    ground (arith, insert_from_back-Falls q.extended_sequence_num p qs)

insert_from_back-perm :
    (p : RtpPacket) (ps : List RtpPacket) → Perm (insert_from_back p ps) (p ∷ ps)
unfolding insert_from_back
insert_from_back-perm p [] = Perm.refl (p ∷ [])
insert_from_back-perm p (q ∷ qs) =
    elim (Bool-cases (ltb q.extended_sequence_num p.extended_sequence_num)) [
      | inl later ↦ rw later (Perm.refl _)
      | inr earlier ↦
          rw earlier (Perm.trans (Perm.cons q (insert_from_back-perm p qs)) (Perm.swap p q qs))
    ]

-- Insertion keeps the packets of a frame in order of their numbers, and adds the packet to them.
pub insert_packet-IsSorted :
    (p : RtpPacket) (f : Frame)
    → IsSorted f.packets
    → IsSorted (insert_packet_in_sequence_order p f).packets
      × Perm (insert_packet_in_sequence_order p f).packets (p ∷ f.packets)
      × ((insert_packet_in_sequence_order p f).timestamp ≡ f.timestamp)
unfolding insert_packet_in_sequence_order
insert_packet-IsSorted p f s =
    (insert_from_back-IsSorted p f.packets s, insert_from_back-perm p f.packets, refl)

-- `n` consecutive extended numbers.
abbrev pub count_from : ℕ → ℕ → List ℕ
count_from seq zero = []
count_from seq (suc n) = seq ∷ count_from ((seq + 1) % 2 ^ 64) n

abbrev pub numbers : List RtpPacket → List ℕ
numbers = map (λ p. p.extended_sequence_num)

is_sequential_iff :
    (seq : ℕ) (ps : List RtpPacket)
    → (is_sequential seq ps ≡ true) ↔ (numbers ps ≡ count_from seq (length ps))
unfolding is_sequential
is_sequential_iff seq [] = ground arith
is_sequential_iff seq (p ∷ ps) = ground (arith, is_sequential_iff ((seq + 1) % 2 ^ 64) ps)

head_eq :
    (p : RtpPacket) (ps : List RtpPacket) (first : ℕ)
    → numbers (p ∷ ps) ≡ count_from first (length (p ∷ ps))
    → first ≡ p.extended_sequence_num
head_eq p ps first e = ground arith

starts_sequential_iff :
    (ps : List RtpPacket)
    → (starts_sequential ps ≡ true) ↔ ((first : ℕ) × (numbers ps ≡ count_from first (length ps)))
unfolding starts_sequential
starts_sequential_iff [] = (λ h. (0, refl), λ h. refl)
starts_sequential_iff (p ∷ ps) =
    let iff = is_sequential_iff p.extended_sequence_num (p ∷ ps) in
    (λ h. (p.extended_sequence_num, iff.0 h), λ (first, e). iff.1 (rw (head_eq p ps first e) at e))

empty : is_complete_list [] ≡ false
unfolding is_complete_list
empty = refl

is_complete_list_iff :
    (back : RtpPacket) (ps : List RtpPacket)
    → (is_complete_list (back ∷ ps) ≡ true)
      ↔ (((header back).marker_bit ≢ 0) × (starts_sequential (reverse (back ∷ ps)) ≡ true))
unfolding is_complete_list
is_complete_list_iff back ps = ground arith

-- A frame is complete exactly if the last of its packets carries the marker bit and the numbers
-- from the first to the last are consecutive (modulo 2 ^ 64); a frame without packets is not.
pub is_complete_iff :
    (f : Frame) (back : RtpPacket) (ps : List RtpPacket)
    → (is_complete (record f { packets = [] }) ≡ false)
      × ((is_complete (record f { packets = back ∷ ps }) ≡ true) ↔ (
          ((header back).marker_bit ≢ 0)
          × ((first : ℕ) × (numbers (reverse (back ∷ ps))
                ≡ count_from first (length (reverse (back ∷ ps)))))))
unfolding is_complete
is_complete_iff f back ps =
    let iff = is_complete_list_iff back ps in
    let seq = starts_sequential_iff (reverse (back ∷ ps)) in
    (empty, (λ h. ((iff.0 h).0, seq.0 (iff.0 h).1), λ (m, s). iff.1 (m, seq.1 s)))
