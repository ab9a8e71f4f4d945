-- ===== src/Glimesh/Auth.antt =====
-- The access token of src/ServiceConnections/GlimeshServiceConnection.cpp.
use janus_ftl_plugin.Prelude.{◌≡◌}
use janus_ftl_plugin.Prelude.Text.{Text}
use janus_ftl_plugin.Glimesh.{GlimeshServiceConnection, value, error, thrown, undefined, Authorized}

-- A token that comes back is the one that is kept, for the same client.
abbrev IsKept : GlimeshServiceConnection → Authorized → Type 0
IsKept s (value bearer, s') =
    (s'.access_token ≡ bearer) × (s'.client_id ≡ s.client_id) × (s'.client_secret ≡ s.client_secret)
IsKept s (error, s') = Unit {0}
IsKept s (thrown, s') = Unit {0}
IsKept s (undefined, s') = Unit {0}
