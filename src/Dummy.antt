-- ===== src/Dummy.antt =====
-- src/ServiceConnections/DummyServiceConnection.{h,cpp}: a service with one key, which keeps the
-- preview images as files. What the file system answers is a parameter, and a path is its characters.
use janus_ftl_plugin.Prelude.{
  ℕ, ◌+◌, ◌%◌, ◌^◌, ◌≡◌, ◌∙◌, sym, ap, Bool, true, false, List, [], ◌∷◌, ◌++◌, ◌==◌, if◌then◌else◌,
  arith, if-cases,
}
use mathlib.Core.List.{append_assoc, append-nil}
use janus_ftl_plugin.Prelude.Text.{Text, codes}
use janus_ftl_plugin.Rtp.Packet.{Bytes}
use janus_ftl_plugin.Janus.Sdp.{to_decimal}
use janus_ftl_plugin.Janus.Report.{StreamMetadata, ServiceResponse, ok}

pub record DummyServiceConnection : Type 0 where
  pub hmac_key : Bytes
  pub preview_save_path : Text
  pub current_stream_id : ℕ

pub record FileSystem : Type 0 where
  -- Whether `mkdir` makes the directory or finds that there is something of that name.
  pub mkdir : Text → Bool
  -- Whether a file can be opened for writing.
  pub opens : Text → Bool

pub data Effect : Type 0 where
  make_directory : (path : Text) → Effect
  write_file : (path : Text) (content : Bytes) → Effect

abbrev slash : ℕ
slash = 47

-- The loop of `recursiveMkDir`, from what stands before a character on, and whether it goes through.
unfoldable make_parents : FileSystem → Text → Text → List Effect × Bool
make_parents fs before [] = ([], true)
make_parents fs before (x ∷ xs) =
    let (es, made) = make_parents fs (before ++ x ∷ []) xs in
    if x == slash
    then if fs.mkdir before
      then (make_directory before ∷ es, made)
      else (make_directory before ∷ [], false)
    else (es, made)

-- The first character starts no directory.
unfoldable make_all_parents : FileSystem → Text → List Effect × Bool
unfolding make_parents
make_all_parents fs [] = ([], true)
make_all_parents fs (x ∷ xs) = make_parents fs (x ∷ []) xs

unfoldable recursive_mk_dir : FileSystem → Text → List Effect × Bool
unfolding make_all_parents
recursive_mk_dir fs path =
    let (es, made) = make_all_parents fs path in
    if made then (es ++ make_directory path ∷ [], fs.mkdir path) else (es, false)

-- `false` is an exception.
unfoldable init : FileSystem → DummyServiceConnection → List Effect × Bool
unfolding recursive_mk_dir
init fs s = recursive_mk_dir fs s.preview_save_path

abbrev get_hmac_key : ℕ → DummyServiceConnection → Bytes
get_hmac_key channel s = s.hmac_key

unfoldable start_stream : ℕ → DummyServiceConnection → ℕ × DummyServiceConnection
start_stream channel s =
    (s.current_stream_id, record s { current_stream_id = (s.current_stream_id + 1) % 2 ^ 32 })

abbrev update_stream_metadata : ℕ → StreamMetadata → ServiceResponse
update_stream_metadata stream metadata = ok

-- `false` is an error.
unfoldable send_jpeg_preview_image :
    FileSystem → ℕ → Bytes → DummyServiceConnection → List Effect × Bool
unfolding to_decimal
send_jpeg_preview_image fs stream jpeg s =
    let path = s.preview_save_path ++ codes "/" ++ to_decimal stream ++ codes ".jpg" in
    if fs.opens path then (write_file path jpeg ∷ [], true) else ([], false)

make_parents-rest :
    (fs : FileSystem) (acc : Text) (x : ℕ) (xs : Text)
    → (make_parents fs acc (x ∷ xs)).1 ≡ true
    → (make_parents fs (acc ++ x ∷ []) xs).1 ≡ true
unfolding make_parents
make_parents-rest fs acc x xs =
    let P =
      λ (r : List Effect × Bool). r.1 ≡ true → (make_parents fs (acc ++ x ∷ []) xs).1 ≡ true in
    if-cases P (x == slash)
      (λ _. if-cases P (fs.mkdir acc) (λ _ made. made) (λ _ bad. absurd (ground arith)))
      (λ _ made. made)

make_parents-mkdir :
    (fs : FileSystem) (acc before after : Text)
    → (make_parents fs acc (before ++ slash ∷ after)).1 ≡ true
    → fs.mkdir (acc ++ before) ≡ true
unfolding make_parents
make_parents-mkdir fs acc [] after made =
    let P = λ (r : List Effect × Bool). r.1 ≡ true → fs.mkdir (acc ++ []) ≡ true in
    if-cases P (fs.mkdir acc) (λ there _. ap fs.mkdir (append-nil acc) ∙ there)
      (λ _ bad. absurd (ground arith)) made
make_parents-mkdir fs acc (x ∷ before) after made =
    ap fs.mkdir (sym (append_assoc acc (x ∷ []) before))
    ∙ make_parents-mkdir fs (acc ++ x ∷ []) before after
        (make_parents-rest fs acc x (before ++ slash ∷ after) made)

-- When `recursiveMkDir` succeeds, `mkdir` has succeeded or found something at each way to a slash
-- that has a character before it, and at the path itself.
recursive_mk_dir-mkdir :
    (fs : FileSystem) (x : ℕ) (before after : Text)
    → (recursive_mk_dir fs (x ∷ before ++ slash ∷ after)).1 ≡ true
    → (fs.mkdir (x ∷ before) ≡ true) × (fs.mkdir (x ∷ before ++ slash ∷ after) ≡ true)
unfolding recursive_mk_dir make_all_parents
recursive_mk_dir-mkdir fs x before after =
    let path : Text = x ∷ before ++ slash ∷ after in
    let r = make_parents fs (x ∷ []) (before ++ slash ∷ after) in
    let P = λ (q : List Effect × Bool).
      q.1 ≡ true → (fs.mkdir (x ∷ before) ≡ true) × (fs.mkdir path ≡ true) in
    if-cases P r.1 (λ made there. (make_parents-mkdir fs (x ∷ []) before after made, there))
      (λ _ bad. absurd (ground arith))
