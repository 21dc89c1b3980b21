-- ===== src/Registry/Store/Contents.antt =====
-- What `get` and `contains` say after a `put`.
use ember_edge.Prelude.{
  ◌≡◌, ◌≢◌, sym, ap, ◌∙◌, false, some, [], ◌++◌, arith, lookup, insert, remove, lookup-insert_self,
  inl, inr,
}
use ember_edge.Text.Basic.{Str, str_Eq, text}
use ember_edge.Errors.Monad.{ok, Result-cases, is_ok}
use ember_edge.Registry.Digest.{Blob, digest}
use ember_edge.Registry.Digest.Form.{IsHex64, digest_forms}
use ember_edge.Registry.Action.{Dir}
use ember_edge.Registry.Store.{
  SystemAnswers, already_exists, temp_name, move_file, put_new, put, blob_path, file_exists, get,
  contains,
}
use ember_edge.Registry.Store.Integrity.{IsIntact}

blob_path-IsHex64 :
    (d name : Str) → blob_path d ≡ ok name → (d ≡ text "sha256:" ++ name) × IsHex64 name
unfolding blob_path
blob_path-IsHex64 d name h = (digest_forms d name).0.0 h

pub get-found :
    (d name : Str) (b : Blob) (dir : Dir)
    → blob_path d ≡ ok name
    → lookup name dir ≡ some b
    → get d dir ≡ ok b
unfolding get
get-found d name b dir e found = ground arith

module _ (sha256_hex : Blob → Str) where
  -- From an intact directory every blob that `get` returns has the digest that was asked for.
  pub get-IsIntact :
      (d : Str) (b : Blob) (dir : Dir)
      → IsIntact sha256_hex dir
      → get d dir ≡ ok b
      → digest sha256_hex b ≡ d
  get-IsIntact d b dir intact h = elim (Result-cases (blob_path d)) [
    | inr (f, e) ↦ absurd (unfold get in ground (arith, e, h))
    | inl (name, e) ↦
        let (cut, hex) = blob_path-IsHex64 d name e in
        let found : lookup name dir ≡ some b = unfold get in ground (arith, e, h) in
        unfold digest in rw cut (ap (λ s. text "sha256:" ++ s) (intact.at name b hex found))
  ]

  -- `contains` is true exactly of the digests that `get` can return.
  pub contains-get : (d : Str) (dir : Dir) → contains d dir ≡ is_ok (get d dir)
  unfolding contains get file_exists
  contains-get d dir = ground arith

module _ (sha256_hex : Blob → Str) (sys : SystemAnswers) (blob : Blob) where
  pub put_new-lookup :
      (dir dir' : Dir) (name d : Str)
      → sys.rename ≢ already_exists
      → put_new sha256_hex sys blob name dir ≡ (dir', ok d)
      → (d ≡ digest sha256_hex blob) × (lookup name dir' ≡ some blob)
  unfolding put_new move_file
  put_new-lookup dir dir' name d honest h = ground (
    arith,
    lookup-insert_self (temp_name sys.pid) blob (insert (temp_name sys.pid) [] dir),
    lookup-insert_self name blob (
        remove (temp_name sys.pid)
          (insert (temp_name sys.pid) blob (insert (temp_name sys.pid) [] dir))),
  )

  pub put-fresh :
      (dir : Dir) (name : Str)
      → blob_path (digest sha256_hex blob) ≡ ok name
      → file_exists name dir ≡ false
      → put sha256_hex sys blob dir ≡ put_new sha256_hex sys blob name dir
  unfolding put
  put-fresh dir name e missing = rw (e, put) (rw missing)

  -- A `put` that succeeds returns the blob's digest, and `get` of that digest then returns the blob
  -- itself where the store did not hold that digest before. (A rename does not find a file that the
  -- test before it did not.)
  pub get-put :
      (dir dir' : Dir) (d : Str)
      → sys.rename ≢ already_exists
      → contains (digest sha256_hex blob) dir ≡ false
      → put sha256_hex sys blob dir ≡ (dir', ok d)
      → (d ≡ digest sha256_hex blob) × (get d dir' ≡ ok blob)
  get-put dir dir' d honest fresh h = elim (Result-cases (blob_path (digest sha256_hex blob))) [
    | inr (f, e) ↦ absurd (unfold put in ground (arith, e, h))
    | inl (name, e) ↦
        let missing : file_exists name dir ≡ false = unfold contains in ground (arith, e, fresh) in
        let new : put_new sha256_hex sys blob name dir ≡ (dir', ok d) =
          sym (put-fresh dir name e missing) ∙ h in
        let (same, found) = put_new-lookup dir dir' name d honest new in
        (same, get-found d name blob dir' (ap blob_path same ∙ e) found)
  ]
