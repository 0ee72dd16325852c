-- ===== src/Config/Paths/Socket.antt =====
-- internal/config/paths.go, `SocketPath`: whatever the directory, the file is the publish socket.
use go_salt_events.Base.{
  Bool, Bool-cases, Bytes, List, [], ap, bytes_eq, false, inl, inr, refl, reverse-append, subst,
  sym, true, ◌++◌, ◌==◌, ◌∙◌, ◌∷◌, ◌≡◌, ◌⊎◌,
}
use go_salt_events.Config.Paths.{
  base, clean, clean_all, clean_step, is_rooted, join, join_back, pub_socket_name, segments, slash,
  socket_path, under_root,
}

segments-cons : (p : Bytes) → (s : Bytes) × (ss : List Bytes) × (segments p ≡ s ∷ ss)
unfolding segments
segments-cons [] = ([], [], refl)
segments-cons (c ∷ p) = elim (Bool-cases (c == slash)) [
  | inl at_slash ↦ ([], segments p, rw at_slash refl)
  | inr inside ↦ let (s, ss, e) = segments-cons p in (c ∷ s, ss, rw (inside, e) refl)
]

segments-snoc : (dir name : Bytes) → segments (dir ++ slash ∷ name) ≡ segments dir ++ segments name
unfolding segments
segments-snoc [] name = refl
segments-snoc (c ∷ dir) name =
    let (s, ss, e) = segments-cons dir in
    elim (Bool-cases (c == slash)) [
      | inl at_slash ↦ rw (segments, at_slash, segments-snoc dir name) refl
      | inr inside ↦ rw (segments, inside, segments-snoc dir name, e) refl
    ]

clean_all-append :
    (rooted : Bool) (kept ss ts : List Bytes)
    → clean_all rooted kept (ss ++ ts) ≡ clean_all rooted (clean_all rooted kept ss) ts
unfolding clean_all
clean_all-append rooted kept [] ts = refl
clean_all-append rooted kept (s ∷ ss) ts = clean_all-append rooted (clean_step rooted kept s) ss ts

-- A path that ends in the name of the socket, as its last element.
abbrev EndsInName : Bytes → Type 0
EndsInName p = (p ≡ pub_socket_name) ⊎ ((front : Bytes) × (p ≡ front ++ slash ∷ pub_socket_name))

base-EndsInName : (p : Bytes) → EndsInName p → base p ≡ pub_socket_name
unfolding base
base-EndsInName p (inl e) = rw e refl
base-EndsInName p (inr ([], e)) = rw e refl
base-EndsInName p (inr (c ∷ front, e)) =
    rw e (unfold base in rw (reverse-append (c ∷ front) (slash ∷ pub_socket_name)) refl)

join_back-EndsInName : (kept : List Bytes) → EndsInName (join_back (pub_socket_name ∷ kept))
unfolding join_back
join_back-EndsInName [] = inl refl
join_back-EndsInName (k ∷ ks) = inr (join_back (k ∷ ks), refl)

under_root-EndsInName :
    (rooted : Bool) (p : Bytes) → EndsInName p → EndsInName (under_root rooted p)
under_root-EndsInName true p (inl e) = inr ([], ap (λ s. slash ∷ s) e)
under_root-EndsInName true p (inr (front, e)) = inr (slash ∷ front, ap (λ s. slash ∷ s) e)
under_root-EndsInName false p (inl e) = inl (rw e refl)
under_root-EndsInName false p (inr ([], e)) = inr ([], rw e refl)
under_root-EndsInName false p (inr (c ∷ front, e)) = inr (c ∷ front, rw e refl)

kept-name :
    (rooted : Bool) (kept : List Bytes)
    → clean_all rooted kept (segments pub_socket_name) ≡ pub_socket_name ∷ kept
unfolding clean_all clean_step segments bytes_eq
kept-name rooted kept = refl

clean-EndsInName : (dir : Bytes) → EndsInName (clean (dir ++ slash ∷ pub_socket_name))
clean-EndsInName dir =
    let p = dir ++ slash ∷ pub_socket_name in
    let kept = clean_all (is_rooted p) [] (segments dir) in
    let e : clean_all (is_rooted p) [] (segments p) ≡ pub_socket_name ∷ kept =
      ap (clean_all (is_rooted p) []) (segments-snoc dir pub_socket_name)
      ∙ clean_all-append (is_rooted p) [] (segments dir) (segments pub_socket_name)
      ∙ kept-name (is_rooted p) kept in
    unfold clean in
    under_root-EndsInName (is_rooted p) _
      (subst (λ k. EndsInName (join_back k)) (sym e) (join_back-EndsInName kept))

-- Whatever directory it is given, "..", a trailing slash or the path of another socket included, the
-- last element of the path that `SocketPath` makes is the name of the publish socket. What that path
-- resolves to is not looked at.
pub base-socket_path : (dir : Bytes) → base (socket_path dir) ≡ pub_socket_name
unfolding socket_path join base bytes_eq
base-socket_path [] = refl
base-socket_path (d ∷ dir) = base-EndsInName _ (clean-EndsInName (d ∷ dir))
