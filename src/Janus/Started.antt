-- ===== src/Janus/Started.antt =====
-- `ftlServerStreamStarted` of src/JanusFtl.cpp: who views the stream that has started.
use janus_ftl_plugin.Prelude.{ℕ, ◌≡◌, true, false, Option, some}
use janus_ftl_plugin.Prelude.OrdMap.{contains}
use janus_ftl_plugin.Janus.{JanusFtl}
use janus_ftl_plugin.Janus.Attached.{viewing, waiting, attached}

-- What a start promises: the channel's viewers are those that viewed its stream before or waited for
-- it, and nobody waits any more.
abbrev IsStarted : ℕ → ℕ → JanusFtl → Option ℕ → JanusFtl → Type 0
IsStarted h c s result s' =
    (id : ℕ) × (result ≡ some id)
    × (contains c s'.streams ≡ true)
    × (viewing h c s' ≡ attached h c s)
    × (waiting h c s' ≡ false)
