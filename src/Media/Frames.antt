-- ===== src/Media/Frames.antt =====
-- The structures of src/FtlMediaConnection.h, and `Frame` of src/FtlMediaConnection.cpp: the
-- packets of a key frame. The head of the list is the back of the `std::list`.
pub mod Order
use janus_ftl_plugin.Prelude.{
  ℕ, ◌+◌, ◌%◌, ◌^◌, Bool, true, false, List, [], ◌∷◌, reverse, ltb, ◌==◌, if◌then◌else◌,
}
use janus_ftl_plugin.Rtp.Packet.{RtpPacket, header}

pub record Frame : Type 0 where
  pub packets : List RtpPacket
  pub timestamp : ℕ

abbrev pub new_frame : ℕ → Frame
new_frame timestamp = record { packets = []; timestamp = timestamp }

-- The loop that requires consecutive numbers from `seq` on.
pub is_sequential : ℕ → List RtpPacket → Bool
is_sequential seq [] = true
is_sequential seq (p ∷ ps) =
    let rest = is_sequential ((seq + 1) % 2 ^ 64) ps in
    if seq == p.extended_sequence_num then rest else false

-- The numbers are compared from that of the front.
pub starts_sequential : List RtpPacket → Bool
unfolding is_sequential
starts_sequential [] = true
starts_sequential (p ∷ ps) = is_sequential p.extended_sequence_num (p ∷ ps)

pub is_complete_list : List RtpPacket → Bool
is_complete_list [] = false
is_complete_list (back ∷ ps) =
    if (header back).marker_bit == 0 then false else starts_sequential (reverse (back ∷ ps))

pub is_complete : Frame → Bool
unfolding is_complete_list
is_complete f = is_complete_list f.packets

-- The walk from the back to the insertion point.
unfoldable pub insert_from_back : RtpPacket → List RtpPacket → List RtpPacket
insert_from_back p [] = p ∷ []
insert_from_back p (q ∷ qs) =
    let rest = insert_from_back p qs in
    if ltb q.extended_sequence_num p.extended_sequence_num then p ∷ q ∷ qs else q ∷ rest

unfoldable pub insert_packet_in_sequence_order : RtpPacket → Frame → Frame
unfolding insert_from_back
insert_packet_in_sequence_order p f = record f { packets = insert_from_back p f.packets }
