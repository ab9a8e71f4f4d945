-- ===== src/Janus/Edge.antt =====
-- src/ServiceConnections/EdgeNodeServiceConnection.cpp, on the fields that JanusFtl keeps of it.
use janus_ftl_plugin.Prelude.{
  ℕ, ◌+◌, ◌%◌, ◌^◌, ◌≡◌, refl, Option, none, some, ◌==◌, if◌then◌else◌, arith, Option-cases, inl,
  inr,
}
use janus_ftl_plugin.Prelude.OrdMap.{find, erase}
use janus_ftl_plugin.Prelude.OrdMap.Update.{insert_or_assign, find-erase, find-insert_or_assign}
use janus_ftl_plugin.Rtp.Packet.{Bytes}
use janus_ftl_plugin.Janus.{JanusFtl}

unfoldable pub provision_if_none : ℕ → Bytes → Option Bytes → JanusFtl → Bytes × JanusFtl
unfolding insert_or_assign
provision_if_none channel new_key none s =
    (new_key, record s { stream_keys = insert_or_assign channel new_key s.stream_keys })
provision_if_none channel new_key (some key) s = (key, s)

-- `new_key` is what `GenerateRandomBinaryPayload` returns, where it is called.
unfoldable pub provision_stream_key : ℕ → Bytes → JanusFtl → Bytes × JanusFtl
unfolding find provision_if_none
provision_stream_key channel new_key s =
    provision_if_none channel new_key (find channel s.stream_keys) s

unfoldable pub clear_stream_key : ℕ → JanusFtl → JanusFtl
unfolding erase
clear_stream_key channel s = record s { stream_keys = erase channel s.stream_keys }

-- `none` is the error that there is no key.
unfoldable pub get_hmac_key : ℕ → JanusFtl → Option Bytes
unfolding find
get_hmac_key channel s = find channel s.stream_keys

-- The counter has 32 bits.
unfoldable pub start_stream : JanusFtl → ℕ × JanusFtl
start_stream s = (
  s.last_assigned_stream_id,
  record s { last_assigned_stream_id = (s.last_assigned_stream_id + 1) % 2 ^ 32 },
)

-- A key that was provisioned is the one that the server then checks the relay with, and it is
-- provisioned again as it is; once cleared there is none; other channels' keys stay.
get_hmac_key-provision_stream_key :
    (c d : ℕ) (new_key other_key : Bytes) (s : JanusFtl)
    → let (key, s') = provision_stream_key c new_key s in
      (get_hmac_key c s' ≡ some key)
      × ((provision_stream_key c other_key s').0 ≡ key)
      × (get_hmac_key c (clear_stream_key c s') ≡ none)
      × (get_hmac_key d (clear_stream_key c s') ≡ (if d == c then none else get_hmac_key d s))
unfolding provision_stream_key provision_if_none get_hmac_key clear_stream_key
get_hmac_key-provision_stream_key c d new_key other_key s =
    elim (Option-cases (find c s.stream_keys)) [
      | inl new ↦
          let m = insert_or_assign c new_key s.stream_keys in
          let found : find c m ≡ some new_key =
            ground (arith, find-insert_or_assign c c new_key s.stream_keys) in
          rw new (
            found,
            rw found refl,
            ground (arith, find-erase c c m),
            ground (arith, find-erase c d m, find-insert_or_assign c d new_key s.stream_keys),
          )
      | inr (key, e) ↦ rw e (
        e,
        rw e refl,
        ground (arith, find-erase c c s.stream_keys),
        ground (arith, find-erase c d s.stream_keys),
      )
    ]
