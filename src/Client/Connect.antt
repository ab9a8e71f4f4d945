-- ===== src/Client/Connect.antt =====
-- `ConnectAsync` of src/FtlClient.cpp, with the opening of both sockets. What the look-up of names and
-- the system answer, the responses, and whether the other thread ends the connection meanwhile are
-- arguments.
use janus_ftl_plugin.Prelude.{Bool, true, false, Option, ℕ, List, [], ◌∷◌, ◌++◌, map, if◌then◌else◌}
use janus_ftl_plugin.Prelude.Text.{Text}
use janus_ftl_plugin.Client.{
  Library, ConnectMetadata, FtlResponse, FtlClient, Effect, close_control, close_media, stop,
  end_connection, authenticate_control_connection, send_control_start_stream,
}

-- Of a socket: whether the name is found, and whether `connect` succeeds.
pub record Opening : Type 0 where
  pub found : Bool
  pub connected : Bool

-- The last three are whether the thread ends the connection while the client authenticates, starts
-- the stream, and opens the media connection.
pub record Answers : Type 0 where
  pub control : Opening
  pub hmac : Option FtlResponse
  pub auth : Option FtlResponse
  pub metadata : Option FtlResponse
  pub media : Opening
  pub lost_authenticating : Bool
  pub lost_starting : Bool
  pub lost_opening : Bool

pub data ConnectEffect : Type 0 where
  open_control start_thread : ConnectEffect
  open_media : (port : ℕ) → ConnectEffect
  send : Text → ConnectEffect
  own : Effect → ConnectEffect

abbrev pub Connecting : Type 0
Connecting = List ConnectEffect × Bool × FtlClient

-- A handle that is closed since `connect` has failed is kept.
unfoldable pub open_control_connection : Opening → FtlClient → Connecting
open_control_connection o c =
    if o.found
    then if o.connected
      then (open_control ∷ [], true, record c { control_socket = true })
      else (open_control ∷ own close_control ∷ [], false, record c { control_socket = true })
    else ([], false, c)

-- Here the handle is reset.
unfoldable pub open_media_connection : Opening → FtlClient → Connecting
open_media_connection o c =
    if o.found
    then if o.connected
      then (open_media c.assigned_media_port ∷ [], true, record c { media_socket = true })
      else (
        open_media c.assigned_media_port ∷ own close_media ∷ [],
        false,
        record c { media_socket = false },
      )
    else ([], false, c)

unfoldable pub lose : Bool → Connecting → Connecting
unfolding end_connection
lose false r = r
lose true (es, ok, c) = let (fs, c') = end_connection c in (es ++ map own fs, ok, c')

-- An error stops the client.
unfoldable pub then_or_stop : Connecting → (FtlClient → Connecting) → Connecting
unfolding stop
then_or_stop (es, true, c) next = let (es', ok, c') = next c in (es ++ es', ok, c')
then_or_stop (es, false, c) next = let (fs, c') = stop c in (es ++ map own fs, false, c')

unfoldable pub authenticate : Library → Answers → FtlClient → Connecting
unfolding lose authenticate_control_connection
authenticate l a c =
    let (messages, ok) = authenticate_control_connection l c a.hmac a.auth in
    lose a.lost_authenticating (map send messages, ok, c)

unfoldable pub start_stream : Library → Answers → ConnectMetadata → FtlClient → Connecting
unfolding lose send_control_start_stream
start_stream l a m c =
    let (messages, ok, c') = send_control_start_stream l m a.metadata c in
    lose a.lost_starting (map send messages, ok, c')

unfoldable pub connect_opened : Library → Answers → ConnectMetadata → FtlClient → Connecting
unfolding then_or_stop authenticate start_stream lose open_media_connection
connect_opened l a m c = then_or_stop (authenticate l a c) (λ (c' : FtlClient).
    then_or_stop (start_stream l a m c') (λ (c'' : FtlClient).
      then_or_stop (lose a.lost_opening (open_media_connection a.media c''))
        (λ (d : FtlClient). ([], true, d))))

unfoldable pub connect_if_open : Library → Answers → ConnectMetadata → Connecting → Connecting
unfolding connect_opened
connect_if_open l a m (es, false, c) = (es, false, c)
connect_if_open l a m (es, true, c) =
    let (es', ok, c') = connect_opened l a m c in (es ++ start_thread ∷ es', ok, c')

unfoldable pub connect_async : Library → Answers → ConnectMetadata → FtlClient → Connecting
unfolding connect_if_open open_control_connection
connect_async l a m c = connect_if_open l a m (open_control_connection a.control c)
