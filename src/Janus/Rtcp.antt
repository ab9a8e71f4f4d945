-- ===== src/Janus/Rtcp.antt =====
-- `IncomingRtcp` of src/JanusFtl.cpp: the walk over a compound packet. No kind of packet makes the
-- plugin do anything, so what the walk yields is where it looks for a header. `totalLength` is a
-- `uint16_t`, in which the subtraction wraps.
use janus_ftl_plugin.Prelude.{
  ℕ, zero, suc, ◌+◌, ◌-◌, ◌*◌, ◌%◌, ◌^◌, ◌≤◌, ◌<◌, ◌≡◌, ◌∙◌, refl, subst, false, Option, none, some,
  List, [], ◌∷◌, ◌++◌, ◌==◌, ap, sym, if◌then◌else◌, arith, length, sum, All, All-map,
}
use janus_ftl_plugin.Rtp.Packet.{Bytes, byte_at, u16_at}

pub cons_to : ℕ → Option (List ℕ) → Option (List ℕ)
cons_to o none = none
cons_to o (some os) = some (o ∷ os)

-- `none` when the walk has not ended within the fuel; otherwise the offsets of the headers.
pub incoming_rtcp : ℕ → Bytes → ℕ → ℕ → Option (List ℕ)
unfolding cons_to
incoming_rtcp zero b offset total_length = none
incoming_rtcp (suc fuel) b offset total_length =
    let packet_length = u16_at b (offset + 2) in
    let rest = (total_length + 2 ^ 32 - (packet_length * 4 + 4)) % 2 ^ 16 in
    let next = incoming_rtcp fuel b (offset + 4 * (packet_length + 1)) rest in
    if packet_length == 0
    then some (offset ∷ [])
    else if rest == 0
    then some (offset ∷ [])
    else cons_to offset next

abbrev pub size : List ℕ → ℕ
size ns = sum (λ n. n * 4 + 4) ns

-- The packets of these lengths follow each other from an offset on.
abbrev pub IsCompound : Bytes → ℕ → List ℕ → Type 0
IsCompound b offset [] = Unit {0}
IsCompound b offset (n ∷ ns) =
    (u16_at b (offset + 2) ≡ n) × (0 < n) × IsCompound b (offset + 4 * (n + 1)) ns

abbrev pub offsets : ℕ → List ℕ → List ℕ
offsets offset [] = []
offsets offset (n ∷ ns) = offset ∷ offsets (offset + 4 * (n + 1)) ns

incoming_rtcp-step :
    (fuel : ℕ) (b : Bytes) (offset total_length n rest : ℕ)
    → u16_at b (offset + 2) ≡ n
    → 0 < n
    → (total_length + 2 ^ 32 - (n * 4 + 4)) % 2 ^ 16 ≡ rest
    → incoming_rtcp (suc fuel) b offset total_length ≡ (
        if rest == 0
        then some (offset ∷ [])
        else cons_to offset (incoming_rtcp fuel b (offset + 4 * (n + 1)) rest))
unfolding incoming_rtcp
incoming_rtcp-step fuel b offset total_length n rest len positive left =
    let more : (n == 0) ≡ false = ground arith in rw (len, left, more) refl

incoming_rtcp-offsets :
    (b : Bytes) (offset n : ℕ) (ns : List ℕ)
    → IsCompound b offset (n ∷ ns)
    → size (n ∷ ns) < 2 ^ 16
    → incoming_rtcp (length (n ∷ ns)) b offset (size (n ∷ ns)) ≡ some (offsets offset (n ∷ ns))
unfolding cons_to
incoming_rtcp-offsets b offset n [] c fits =
    incoming_rtcp-step 0 b offset (size (n ∷ [])) n 0 c.0 c.1 (omega arith)
incoming_rtcp-offsets b offset n (k ∷ ns) c fits =
    let more : (size (k ∷ ns) == 0) ≡ false = ground arith in
    let step =
      incoming_rtcp-step (length (k ∷ ns)) b offset (size (n ∷ k ∷ ns)) n (size (k ∷ ns)) c.0 c.1
        (omega arith) in
    let ih = incoming_rtcp-offsets b (offset + 4 * (n + 1)) k ns c.2 (omega arith) in
    step ∙ rw (more, ih) (refl)

offsets-bounded :
    (offset : ℕ) (ns : List ℕ) → All (λ o. o + 4 ≤ offset + size ns) (offsets offset ns)
offsets-bounded offset [] = tt
offsets-bounded offset (n ∷ ns) =
    let rest = offsets-bounded (offset + 4 * (n + 1)) ns in
    (
      omega arith,
      All-map (λ o. o + 4 ≤ offset + 4 * (n + 1) + size ns) (λ o. o + 4 ≤ offset + size (n ∷ ns))
          (offsets (offset + 4 * (n + 1)) ns) (λ o h. omega (arith, h)) rest,
    )

-- From any header on, packets that fill the rest of the buffer, fewer than 2^16 bytes, none of them
-- with the length field 0, are walked one by one: as many turns as there are packets are enough, a
-- header is looked for exactly where one starts, and each lies within the buffer.
pub incoming_rtcp-bounded :
    (b : Bytes) (offset n : ℕ) (ns : List ℕ)
    → IsCompound b offset (n ∷ ns)
    → offset + size (n ∷ ns) ≡ length b
    → size (n ∷ ns) < 2 ^ 16
    → (incoming_rtcp (length (n ∷ ns)) b offset (size (n ∷ ns)) ≡ some (offsets offset (n ∷ ns)))
      × All (λ o. o + 4 ≤ length b) (offsets offset (n ∷ ns))
incoming_rtcp-bounded b offset n ns c whole fits = (
  incoming_rtcp-offsets b offset n ns c fits,
  subst (λ total. All (λ o. o + 4 ≤ total) (offsets offset (n ∷ ns))) whole
      (offsets-bounded offset (n ∷ ns)),
)

byte_at_behind : (b : Bytes) (i : ℕ) → length b ≤ i → byte_at b i ≡ 0
byte_at_behind [] i h = refl
byte_at_behind (x ∷ xs) zero h = absurd (omega (arith, h))
byte_at_behind (x ∷ xs) (suc i) h = byte_at_behind xs i (omega (arith, h))

incoming_rtcp-over :
    (b : Bytes) (offset left n : ℕ)
    → u16_at b (offset + 2) ≡ n
    → 0 < n
    → n < 2 ^ 16
    → left < n * 4 + 4
    → left < 2 ^ 16
    → 0 < (n * 4 + 4 - left) % 2 ^ 16
    → u16_at b (offset + 4 * (n + 1) + 2) ≡ 0
    → incoming_rtcp 2 b offset left ≡ some (offset ∷ (offset + 4 * (n + 1)) ∷ [])
unfolding incoming_rtcp cons_to
incoming_rtcp-over b offset left n len positive narrow short fits wraps behind =
    let rest = (left + 2 ^ 32 - (n * 4 + 4)) % 2 ^ 16 in
    let on : (rest == 0) ≡ false = ground arith in
    let step = incoming_rtcp-step 1 b offset left n rest len positive refl in
    step ∙ rw (on, behind) refl

incoming_rtcp-behind :
    (b : Bytes) (offset left n : ℕ) (ns : List ℕ)
    → IsCompound b offset ns
    → u16_at b (offset + size ns + 2) ≡ n
    → 0 < n
    → n < 2 ^ 16
    → 0 < left
    → left < n * 4 + 4
    → size ns + left < 2 ^ 16
    → 0 < (n * 4 + 4 - left) % 2 ^ 16
    → u16_at b (offset + size ns + 4 * (n + 1) + 2) ≡ 0
    → incoming_rtcp (suc (suc (length ns))) b offset (size ns + left)
      ≡ some (offsets offset ns ++ (offset + size ns) ∷ (offset + size ns + 4 * (n + 1)) ∷ [])
unfolding cons_to
incoming_rtcp-behind b offset left n [] c len positive narrow some_left short fits wraps behind =
    let here : offset ≡ offset + 0 = omega arith in
    let all_left : left ≡ 0 + left = omega arith in
    let found : List ℕ → Type 0 = λ os. incoming_rtcp 2 b offset (0 + left) ≡ some os in
    subst
      (λ e.
        u16_at b (e + 2) ≡ n
        → u16_at b (e + 4 * (n + 1) + 2) ≡ 0
        → found (e ∷ (e + 4 * (n + 1)) ∷ []))
      here
      (λ len behind.
        subst (λ l. incoming_rtcp 2 b offset l ≡ some (offset ∷ (offset + 4 * (n + 1)) ∷ []))
          all_left
          (incoming_rtcp-over b offset left n len positive narrow short (omega arith) wraps behind))
      len behind
incoming_rtcp-behind b offset left n (k ∷ ns) c len positive narrow some_left short fits wraps
      behind =
    let next = offset + 4 * (k + 1) in
    let same : next + size ns ≡ offset + size (k ∷ ns) = omega arith in
    let more : (size ns + left == 0) ≡ false = ground arith in
    let step =
      incoming_rtcp-step (suc (suc (length ns))) b offset (size (k ∷ ns) + left) k (size ns + left)
        c.0 c.1 (omega arith) in
    let ih =
      incoming_rtcp-behind b next left n ns c.2 (subst (λ e. u16_at b (e + 2) ≡ n) (sym same) len)
        positive narrow some_left short (omega arith) wraps
        (subst (λ e. u16_at b (e + 4 * (n + 1) + 2) ≡ 0) (sym same) behind) in
    step
    ∙ rw (more, ih) refl
    ∙ ap (λ e. some (offset ∷ offsets next ns ++ e ∷ (e + 4 * (n + 1)) ∷ [])) same

-- Packets that follow each other from a header on, none of them with the length field 0, and then one
-- whose length field says more than the bytes that are left, of which there are some, fewer than 2^16
-- in all. Unless the excess is a multiple of 2^16, where the wrapped length is 0, the walk does not
-- stop at the end of the buffer: as many turns as there are packets and one more end it, where a byte
-- behind the end is read as 0, and the last header that it looks for is behind the end.
pub incoming_rtcp_overrun :
    (b : Bytes) (offset left n : ℕ) (ns : List ℕ)
    → IsCompound b offset ns
    → u16_at b (offset + size ns + 2) ≡ n
    → 0 < n
    → n < 2 ^ 16
    → 0 < left
    → left < n * 4 + 4
    → offset + size ns + left ≡ length b
    → size ns + left < 2 ^ 16
    → 0 < (n * 4 + 4 - left) % 2 ^ 16
    → let behind = offset + size ns + 4 * (n + 1) in
      (incoming_rtcp (length ns + 2) b offset (size ns + left)
        ≡ some (offsets offset ns ++ (offset + size ns) ∷ behind ∷ []))
      × (length b < behind)
incoming_rtcp_overrun b offset left n ns c len positive narrow some_left short whole fits wraps =
    let end_of = offset + size ns + 4 * (n + 1) in
    let high = byte_at_behind b (end_of + 2) (omega arith) in
    let low = byte_at_behind b (end_of + 2 + 1) (omega arith) in
    let zeros : u16_at b (end_of + 2) ≡ 0 = omega arith in
    let fuel : suc (suc (length ns)) ≡ length ns + 2 = omega arith in
    (
      subst
          (λ m.
            incoming_rtcp m b offset (size ns + left)
            ≡ some (offsets offset ns ++ (offset + size ns) ∷ end_of ∷ []))
          fuel
          (incoming_rtcp-behind b offset left n ns c len positive narrow some_left short fits wraps
            zeros),
      omega arith,
    )
