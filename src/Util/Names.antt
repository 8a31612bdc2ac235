-- ===== src/Util/Names.antt =====
-- Names of engine processes and mount paths, pkg/util/util.go.
use longhorn_engine_launcher.Prelude.{
  ℕ, ◌+◌, ◌-◌, ◌≡◌, refl, ap, ◌∙◌, none, some, List, [], ◌∷◌, ◌++◌, arith, length, length-append,
  take, ltb, false, if◌then◌else◌,
}
use longhorn_engine_launcher.Prelude.Text.{Text, codes}
use longhorn_engine_launcher.Prelude.Strings.{
  split, split-pieces, split-append, split-Without, join-split, join, Without,
}
use longhorn_engine_launcher.Util.{
  process_name_to_volume_name, get_volume_name_sha_str_from_path, second_last,
}

take-length-append {ℓ} : {A : Type ℓ} (xs ys : List A) → take (length xs) (xs ++ ys) ≡ xs
take-length-append [] ys = refl
take-length-append (x ∷ xs) ys = ap (◌∷◌ x) (take-length-append xs ys)

pieces_of :
    (volume instance_id : Text)
    → Without b'-' instance_id
    → split b'-' (volume ++ (codes "-e-" ++ instance_id))
      ≡ split b'-' volume ++ codes "e" ∷ instance_id ∷ []
pieces_of volume instance_id h =
    split-pieces b'-' volume (codes "e-" ++ instance_id)
    ∙ rw (split-append b'-' (codes "e") instance_id (refl, tt), split-Without b'-' instance_id h)

le→ltb_two : (n : ℕ) → ltb (n + 2) 2 ≡ false
le→ltb_two n = ground arith

drop_two :
    (xs : List Text) (a b : Text)
    → (let slices = xs ++ a ∷ b ∷ [] in
        if ltb (length slices) 2 then none else some (join b'-' (take (length slices - 2) slices)))
      ≡ some (join b'-' xs)
drop_two xs a b =
    let len : length (xs ++ a ∷ b ∷ []) ≡ length xs + 2 = length-append xs (a ∷ b ∷ []) in
    let short : length xs + 2 - 2 ≡ length xs = omega arith in
    rw (len, short, le→ltb_two (length xs), take-length-append xs (a ∷ b ∷ [])) refl

second_last-append : (xs : List Text) (a b : Text) → second_last (xs ++ a ∷ b ∷ []) ≡ some a
unfolding second_last
second_last-append [] a b = refl
second_last-append (x ∷ []) a b = refl
second_last-append (x ∷ y ∷ []) a b = refl
second_last-append (x ∷ y ∷ z ∷ xs) a b = second_last-append (y ∷ z ∷ xs) a b

-- The volume's name comes back from the name of an engine process that is built from it, if the
-- last piece of that name has no dash.
pub process_name_to_volume_name-engine :
    (volume instance_id : Text)
    → Without b'-' instance_id
    → process_name_to_volume_name (volume ++ (codes "-e-" ++ instance_id)) ≡ some volume
unfolding process_name_to_volume_name
process_name_to_volume_name-engine volume instance_id h =
    rw (pieces_of volume instance_id h)
      (drop_two (split b'-' volume) (codes "e") instance_id ∙ ap some (join-split b'-' volume))

globalmount_Without : Without b'/' (codes "globalmount")
globalmount_Without = ground arith

-- From a path that ends in a directory and globalmount, the directory is returned, if its name has
-- no slash.
pub get_volume_name_sha_str_from_path-globalmount :
    (parent sha : Text)
    → Without b'/' sha
    → get_volume_name_sha_str_from_path (parent ++ b'/' ∷ (sha ++ codes "/globalmount")) ≡ some sha
unfolding get_volume_name_sha_str_from_path
get_volume_name_sha_str_from_path-globalmount parent sha h =
    rw
      (
        split-pieces b'/' parent (sha ++ codes "/globalmount"),
        split-append b'/' sha (codes "globalmount") h,
        split-Without b'/' (codes "globalmount") globalmount_Without,
      )
      (second_last-append (split b'/' parent) sha (codes "globalmount"))
