-- ===== src/Guard/Uuids.antt =====
-- What the names of workspaces and session networks look like: WorkspaceNameRe and sessionNetRe of
-- internal/dockerguard/policy.go.
use mathlib.Core.List.{append-nil}
use vaultrun.Base.{
  length, all, Text, codes, text_eq_iff, is_empty, text_eq, ℕ, ◌≡◌, refl, sym, ap, ◌∙◌, ◌⊎◌, inl,
  inr, true, false, Option, none, some, [], ◌∷◌, ◌++◌, arith, Option-cases,
}
use vaultrun.Guard.Iptables.Shapes.{after_literal-some, after_hex-some}
use vaultrun.Guard.Names.{
  is_hex, after_literal, ◌>>=◌, at_end, after_uuid, is_uuid, is_named_uuid, is_workspace_name,
  is_session_net,
}
use vaultrun.Guard.Policy.{text_in, is_network_name}
use vaultrun.Guard.Policy.Passed.{or-true, is_empty-nil}

abbrev pub HexDigits : ℕ → Text → Type 0
HexDigits n s = (all is_hex s ≡ true) × (length s ≡ n)

abbrev pub dashed : Text → Text → Text
dashed s t = s ++ b'-' ∷ t

-- Eight hex digits, three times four and twelve, with dashes between.
pub record IsUuid (s : Text) : Type 0 where
  pub first : Text
  pub second : Text
  pub third : Text
  pub fourth : Text
  pub fifth : Text
  pub eight : HexDigits 8 first
  pub fours : HexDigits 4 second × HexDigits 4 third × HexDigits 4 fourth
  pub twelve : HexDigits 12 fifth
  pub spelt : s ≡ dashed first (dashed second (dashed third (dashed fourth fifth)))

-- A text and then a UUID.
abbrev pub IsNamedUuid : Text → Text → Type 0
IsNamedUuid q s = (u : Text) × IsUuid u × (s ≡ q ++ u)

bind-some :
    (o : Option Text) (f : Text → Option Text) (t : Text)
    → (o >>= f) ≡ some t
    → (a : Text) × (o ≡ some a) × (f a ≡ some t)
bind-some none f t h = absurd (let k : ◌≡◌ {A = Option Text} none (some t) = h in cc)
bind-some (some a) f t h = (a, refl, h)

after_uuid-IsUuid : (s : Text) → after_uuid s ≡ some [] → IsUuid s
unfolding after_uuid
after_uuid-IsUuid s h =
    let (s1, o1, h1) = bind-some _ _ _ h in
    let (s2, o2, h2) = bind-some _ _ _ h1 in
    let (s3, o3, h3) = bind-some _ _ _ h2 in
    let (s4, o4, h4) = bind-some _ _ _ h3 in
    let (s5, o5, h5) = bind-some _ _ _ h4 in
    let (s6, o6, h6) = bind-some _ _ _ h5 in
    let (s7, o7, h7) = bind-some _ _ _ h6 in
    let (s8, o8, h8) = bind-some _ _ _ h7 in
    let (a, ea, xa, na) = after_hex-some 8 s s1 o1 in
    let (b, eb, xb, nb) = after_hex-some 4 s2 s3 o3 in
    let (c, ec, xc, nc) = after_hex-some 4 s4 s5 o5 in
    let (d, ed, xd, nd) = after_hex-some 4 s6 s7 o7 in
    let (e, ee, xe, ne) = after_hex-some 12 s8 [] h8 in
    let dash1 = after_literal-some (codes "-") s1 s2 o2 in
    let dash2 = after_literal-some (codes "-") s3 s4 o4 in
    let dash3 = after_literal-some (codes "-") s5 s6 o6 in
    let dash4 = after_literal-some (codes "-") s7 s8 o8 in
    let tail4 : s7 ≡ b'-' ∷ e = dash4 ∙ ap (λ u. b'-' ∷ u) (ee ∙ append-nil e) in
    let tail3 : s5 ≡ b'-' ∷ dashed d e = dash3 ∙ ap (λ u. b'-' ∷ u) (ed ∙ ap (λ u. d ++ u) tail4) in
    let tail2 : s3 ≡ b'-' ∷ dashed c (dashed d e) =
      dash2 ∙ ap (λ u. b'-' ∷ u) (ec ∙ ap (λ u. c ++ u) tail3) in
    let tail1 : s1 ≡ b'-' ∷ dashed b (dashed c (dashed d e)) =
      dash1 ∙ ap (λ u. b'-' ∷ u) (eb ∙ ap (λ u. b ++ u) tail2) in
    record {
      first = a;
      second = b;
      third = c;
      fourth = d;
      fifth = e;
      eight = (xa, na);
      fours = ((xb, nb), (xc, nc), (xd, nd));
      twelve = (xe, ne);
      spelt = ea ∙ ap (λ u. a ++ u) tail1;
    }

at_end-IsUuid : (s : Text) (o : Option Text) → at_end o ≡ true → o ≡ after_uuid s → IsUuid s
at_end-IsUuid s none h e = absurd (let k : false ≡ true = h in cc)
at_end-IsUuid s (some t) h e = after_uuid-IsUuid s (sym e ∙ ap (λ u. some u) (is_empty-nil t h))

pub is_uuid-IsUuid : (s : Text) → is_uuid s ≡ true → IsUuid s
unfolding is_uuid
is_uuid-IsUuid s h = at_end-IsUuid s (after_uuid s) h refl

pub is_named_uuid-IsNamedUuid : (q s : Text) → is_named_uuid q s ≡ true → IsNamedUuid q s
unfolding is_named_uuid
is_named_uuid-IsNamedUuid q s h = elim (Option-cases (after_literal q s)) [
  | inl missing ↦ absurd (let k : false ≡ true = rw missing at h in cc)
  | inr (t, found) ↦
      (t, at_end-IsUuid t (after_uuid t) (rw found at h) refl, after_literal-some q s t found)
]

-- The name of a session's workspace, or of a warm container's.
abbrev pub IsWorkspaceName : Text → Type 0
IsWorkspaceName s = IsUuid s ⊎ IsNamedUuid (codes "warm-") s

-- No network, one of Docker's defaults, or a session's.
abbrev pub IsNetworkName : Text → Type 0
IsNetworkName s =
    (s ≡ [])
    ⊎ (s ≡ codes "none")
    ⊎ (s ≡ codes "bridge")
    ⊎ (s ≡ codes "default")
    ⊎ IsNamedUuid (codes "vaultrun-net-") s

pub is_workspace_name-IsWorkspaceName : (s : Text) → is_workspace_name s ≡ true → IsWorkspaceName s
unfolding is_workspace_name
is_workspace_name-IsWorkspaceName s h =
    elim (or-true (is_uuid s) (is_named_uuid (codes "warm-") s) h) [
      | inl u ↦ inl (is_uuid-IsUuid s u)
      | inr w ↦ inr (is_named_uuid-IsNamedUuid (codes "warm-") s w)
    ]

text_in_three : (s a b c : Text) → text_in s (a ∷ b ∷ c ∷ []) ≡ true → (s ≡ a) ⊎ (s ≡ b) ⊎ (s ≡ c)
text_in_three s a b c h = elim (or-true (text_eq s a) _ h) [
  | inl e ↦ inl ((text_eq_iff s a).0 e)
  | inr k ↦ elim (or-true (text_eq s b) _ k) [
    | inl e ↦ inr (inl ((text_eq_iff s b).0 e))
    | inr e ↦ inr (inr ((text_eq_iff s c).0 (ground (arith, e))))
  ]
]

pub is_network_name-IsNetworkName : (s : Text) → is_network_name s ≡ true → IsNetworkName s
unfolding is_network_name is_session_net
is_network_name-IsNetworkName s h = elim (or-true _ (is_session_net s) h) [
  | inr n ↦ inr (inr (inr (inr (is_named_uuid-IsNamedUuid (codes "vaultrun-net-") s n))))
  | inl k ↦ elim (or-true (is_empty s) _ k) [
    | inl e ↦ inl (is_empty-nil s e)
    | inr m ↦ elim (text_in_three s (codes "none") (codes "bridge") (codes "default") m) [
      | inl e ↦ inr (inl e)
      | inr r ↦ elim r [ inl e ↦ inr (inr (inl e)) | inr e ↦ inr (inr (inr (inl e))) ]
    ]
  ]
]
