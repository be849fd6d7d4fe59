-- ===== src/Daemon/Temp.antt =====
-- src/daemon.rs: where the temporary file of an upload lies.
use mobfs.Base.{
  ◌≡◌, ◌≢◌, refl, sym, ap, ◌∙◌, subst, inl, inr, true, false, some, [], ◌∷◌, ◌++◌, append-nil,
  append_assoc, arith, Bool-cases, all, ◌<◌, length, length-append,
}
use mobfs.Base.Str.{Str, codes, str_eq, str_eq_iff}
use mobfs.Error.{ok}
use mobfs.Paths.{
  FilePath, Component, normal, root_dir, cur_dir, parent_dir, components, path_starts_with,
  safe_join,
}
use mobfs.Paths.Join.{safe_join_lem, is_normal}
use mobfs.Daemon.{is_id_char, split_last, upload_temp_path}

split_last-append :
    (front : FilePath) (c : Component) → split_last (front ++ (c ∷ [])) ≡ some (front, c)
split_last-append [] c = refl
split_last-append (d ∷ front) c = rw (split_last-append front c)

-- a list that is not empty, from its end
last_of :
    (xs : FilePath) → xs ≢ [] → (front : FilePath) × (c : Component) × (xs ≡ front ++ (c ∷ []))
last_of [] h = absurd (h refl)
last_of (x ∷ []) h = ([], x, refl)
last_of (x ∷ (y ∷ xs)) h =
    let (front, c, e) = last_of (y ∷ xs) (λ e. cc) in (x ∷ front, c, ap (λ r. x ∷ r) e)

last_normal :
    (front : FilePath) (c : Component)
    → all is_normal (front ++ (c ∷ [])) ≡ true
    → (name : Str) × (c ≡ normal name)
unfolding all
last_normal [] (normal name) h = (name, refl)
last_normal [] root_dir h = absurd (cc)
last_normal [] cur_dir h = absurd (cc)
last_normal [] parent_dir h = absurd (cc)
last_normal (d ∷ front) c h = last_normal front c (ground (arith, h))

ok_inj : {A : Type 0} {a b : A} → ok a ≡ ok b → a ≡ b
ok_inj h = cc

-- the temporary file of a path that ends in a name
upload_temp_path_lem :
    (front : FilePath) (last upload_id : Str) {temp : FilePath}
    → upload_temp_path (front ++ (normal last ∷ [])) upload_id ≡ ok temp
    → temp ≡ front ++ (normal (codes "." ++ (last ++ (codes ".mobfs-upload-" ++ upload_id))) ∷ [])
unfolding upload_temp_path
upload_temp_path_lem front last upload_id {temp} h = elim (Bool-cases (all is_id_char upload_id)) [
  | inl e ↦ let found = rw (split_last-append front (normal last), e) at h in sym (ok_inj found)
  | inr e ↦ absurd (cc (rw e at h))
]

accepted :
    (root : FilePath) (rel : Str) {path : FilePath}
    → safe_join root rel ≡ ok path
    → (all is_normal (components rel) ≡ true) × (path ≡ root ++ components rel)
accepted root rel {path} h = ground (arith, safe_join_lem root rel)

-- The temporary file of an upload to an accepted path that has a name in it lies in the directory
-- of that path, so below the root.
pub upload_temp_path_beside :
    (root : FilePath) (rel upload_id : Str) {path temp : FilePath}
    → components rel ≢ []
    → safe_join root rel ≡ ok path
    → upload_temp_path path upload_id ≡ ok temp
    → (front : FilePath) × (last : Str) × (name : Str) × (path
        ≡ root ++ (front ++ (normal last ∷ [])))
      × (temp ≡ root ++ (front ++ (normal name ∷ [])))
upload_temp_path_beside root rel upload_id {path} {temp} some_name joined h =
    let (normals, e) = accepted root rel joined in
    let (front, c, split) = last_of (components rel) some_name in
    let (last, n) = last_normal front c (subst (λ cs. all is_normal cs ≡ true) split normals) in
    let whole : path ≡ root ++ (front ++ (normal last ∷ [])) =
      e ∙ ap (λ cs. root ++ cs) (split ∙ ap (λ d. front ++ (d ∷ [])) n) in
    let at : upload_temp_path ((root ++ front) ++ (normal last ∷ [])) upload_id ≡ ok temp =
      subst (λ x. upload_temp_path x upload_id ≡ ok temp)
        (whole ∙ sym (append_assoc root front (normal last ∷ []))) h in
    (
      front,
      last,
      codes "." ++ (last ++ (codes ".mobfs-upload-" ++ upload_id)),
      whole,
      upload_temp_path_lem (root ++ front) last upload_id at ∙ append_assoc root front _,
    )

starts_with-sibling :
    (front : FilePath) (a b : Str)
    → str_eq a b ≡ false
    → path_starts_with (front ++ (normal a ∷ [])) (front ++ (normal b ∷ [])) ≡ false
unfolding path_starts_with
starts_with-sibling [] a b h = rw h
starts_with-sibling (c ∷ front) a b h = ground (arith, starts_with-sibling front a b)

-- For the empty relative path, which is accepted, it lies beside the root and not below it.
pub upload_temp_path_outside :
    (front : FilePath) (last upload_id : Str) {path temp : FilePath}
    → safe_join (front ++ (normal last ∷ [])) [] ≡ ok path
    → upload_temp_path path upload_id ≡ ok temp
    → path_starts_with temp (front ++ (normal last ∷ [])) ≡ false
upload_temp_path_outside front last upload_id {path} {temp} joined h =
    let root = front ++ (normal last ∷ []) in
    let same : path ≡ root = (accepted root [] joined).1 ∙ unfold components in append-nil root in
    let name = codes "." ++ (last ++ (codes ".mobfs-upload-" ++ upload_id)) in
    let longer : length last < length name =
      omega (arith, length-append last (codes ".mobfs-upload-" ++ upload_id)) in
    let differs : str_eq name last ≡ false = ground (arith, str_eq_iff name last, longer) in
    rw
      (upload_temp_path_lem front last upload_id
        (subst (λ x. upload_temp_path x upload_id ≡ ok temp) same h))
      (starts_with-sibling front name last differs)
