-- ===== src/Guard/Proxy/Creates.antt =====
-- Which requests of the Docker API make something, and that the guard passes none of them on without
-- its check: route of internal/dockerguard/guard.go.
use vaultrun.Base.{
  length, all, Text, codes, text_eq_iff, is_empty, text_eq, ◌≡◌, refl, ◌⊎◌, inl, inr, Bool, true,
  false, ◌&&◌, ◌||◌, not, Option, none, some, List, [], ◌∷◌, arith, ◌==◌, if◌then◌else◌, Bool-cases,
  and-eq_true,
}
use vaultrun.Guard.Names.{is_hex, is_lower}
use vaultrun.Guard.Proxy.{put, Method, get, head, post, delete, other_method}
use vaultrun.Guard.Proxy.Routing.{
  Route, pass_through, pull_image, container, exec, network, nowhere, seg_eq, is_get, is_post,
  is_delete, is_get_or_head, fixed_two, fixed_one, ends_json, pattern_route, or_route,
  is_workspace_path, find_route,
}

-- POST /containers/create, /networks/create, /volumes/create and /containers/<id>/exec; the path is
-- given as its segments
unfoldable pub makes : List Text → Bool
makes ([] ∷ a ∷ b ∷ []) =
    text_eq b (codes "create")
    && (text_eq a (codes "containers")
        || text_eq a (codes "networks")
        || text_eq a (codes "volumes"))
makes ([] ∷ a ∷ b ∷ c ∷ []) = text_eq a (codes "containers") && text_eq c (codes "exec")
makes _ = false

abbrev pub creates : Method → List Text → Bool
creates m path = makes path && is_post m

-- the routes on which a request can be passed on are of requests that make nothing
unfoldable pub RouteOk : Method → List Text → Route → Type 0
RouteOk m path pass_through = creates m path ≡ false
RouteOk m path pull_image = creates m path ≡ false
RouteOk m path (container id op) = (text_eq op (codes "exec") ≡ true) ⊎ (creates m path ≡ false)
RouteOk m path (exec id op) = creates m path ≡ false
RouteOk m path (network id) = creates m path ≡ false
RouteOk m path _ = Unit

-- the same, where a route may be missing
abbrev MaybeOk : Method → List Text → Option Route → Type 0
MaybeOk m path none = Unit
MaybeOk m path (some r) = RouteOk m path r

if-when {ℓ} :
    {A : Type ℓ} (P : A → Type 0) (b : Bool) (x y : A)
    → (b ≡ true → P x)
    → (b ≡ false → P y)
    → P (if b then x else y)
if-when P true x y h k = h refl
if-when P false x y h k = k refl

or_route-RouteOk :
    (m : Method) (path : List Text) (o : Option Route) (r : Route)
    → MaybeOk m path o
    → RouteOk m path r
    → RouteOk m path (or_route o r)
or_route-RouteOk m path none r h k = k
or_route-RouteOk m path (some s) r h k = h

images_two : (a b : Text) → text_eq a (codes "images") ≡ true → makes ([] ∷ a ∷ b ∷ []) ≡ false
unfolding makes text_eq
images_two a b h = rw ((text_eq_iff a (codes "images")).0 h) (ground arith)

and_first : (a b : Bool) → (a && b) ≡ true → a ≡ true
and_first a b h = ground arith

fixed_two-MaybeOk :
    (m : Method) (dirs : Bool) (a b : Text) → MaybeOk m ([] ∷ a ∷ b ∷ []) (fixed_two m dirs a b)
unfolding fixed_two RouteOk
fixed_two-MaybeOk m dirs a b =
    let path : List Text = [] ∷ a ∷ b ∷ [] in
    if-when (MaybeOk m path) (seg_eq a "images" && seg_eq b "json" && is_get m) _ _
      (λ h. let k = images_two a b (and_first _ _ (and_first _ _ h)) in rw k refl)
      (λ n.
        if-when (MaybeOk m path) (seg_eq a "images" && seg_eq b "create" && is_post m) _ _
          (λ h. let k = images_two a b (and_first _ _ (and_first _ _ h)) in rw k refl)
          (λ n2.
            if-when (MaybeOk m path) (seg_eq a "containers" && seg_eq b "create" && is_post m) _ _
              (λ h. tt)
              (λ n3.
                if-when (MaybeOk m path) (seg_eq a "networks" && seg_eq b "create" && is_post m) _ _
                  (λ h. tt)
                  (λ n4.
                    if-when (MaybeOk m path) (seg_eq a "volumes" && seg_eq b "create" && is_post m)
                      _ _ (λ h. tt)
                      (λ n5.
                        if-when (MaybeOk m path)
                          (seg_eq a "vaultrun" && seg_eq b "guard" && is_get m) _ _ (λ h. tt)
                          (λ n6.
                            if-when (MaybeOk m path)
                              (seg_eq a "vaultrun"
                                && (seg_eq b "workspaces" || seg_eq b "xfs-quota")
                                && is_post m
                                && dirs)
                              _ _ (λ h. tt) (λ n7. tt)))))))

fixed_one-MaybeOk : (m : Method) (a : Text) → MaybeOk m ([] ∷ a ∷ []) (fixed_one m a)
unfolding fixed_one RouteOk makes
fixed_one-MaybeOk m a =
    if-when (MaybeOk m ([] ∷ a ∷ [])) (seg_eq a "_ping" && is_get_or_head m) _ _ (λ h. refl)
      (λ n.
        if-when (MaybeOk m ([] ∷ a ∷ [])) ((seg_eq a "version" || seg_eq a "info") && is_get m) _ _
          (λ h. refl) (λ n2. tt))

read_only : (m : Method) → (is_get m || is_delete m) ≡ true → is_post m ≡ false
read_only get h = refl
read_only delete h = refl
read_only post h = cc
read_only head h = refl
read_only put h = refl
read_only (other_method s) h = refl

pattern_one-RouteOk :
    (m : Method) (a x : Text) → RouteOk m ([] ∷ a ∷ x ∷ []) (pattern_route m a (x ∷ []))
unfolding pattern_route RouteOk makes
pattern_one-RouteOk m a x =
    let path : List Text = [] ∷ a ∷ x ∷ [] in
    if-when (RouteOk m path) (seg_eq a "containers" && not (is_empty x) && not (seg_eq x "create"))
      _ _ (λ h. let k : text_eq x (codes "create") ≡ false = ground (arith, h) in inr (rw k refl))
      (λ n.
        if-when (RouteOk m path)
          (seg_eq a "networks" && not (is_empty x) && (is_get m || is_delete m)) _ _
          (λ h.
            let k = read_only m (and-eq_true _ (is_get m || is_delete m) h).1 in
            rw k (ground arith))
          (λ n2. tt))

exec_makes :
    (a x op : Text) → text_eq a (codes "exec") ≡ true → makes ([] ∷ a ∷ x ∷ op ∷ []) ≡ false
unfolding makes text_eq
exec_makes a x op h = rw ((text_eq_iff a (codes "exec")).0 h) refl

not_exec :
    (m : Method) (a x op : Text)
    → text_eq op (codes "exec") ≡ false
    → creates m ([] ∷ a ∷ x ∷ op ∷ []) ≡ false
unfolding makes
not_exec m a x op h = rw h (ground arith)

pattern_two-RouteOk :
    (m : Method) (a x op : Text)
    → RouteOk m ([] ∷ a ∷ x ∷ op ∷ []) (pattern_route m a (x ∷ op ∷ []))
unfolding pattern_route RouteOk
pattern_two-RouteOk m a x op =
    let path : List Text = [] ∷ a ∷ x ∷ op ∷ [] in
    if-when (RouteOk m path)
      (seg_eq a "containers"
        && not (is_empty x)
        && not (seg_eq x "create")
        && not (is_empty op)
        && all is_lower op)
      _ _
      (λ h. elim (Bool-cases (text_eq op (codes "exec"))) [
        | inl is ↦ inl is
        | inr isnt ↦ inr (not_exec m a x op isnt)
      ])
      (λ n.
        if-when (RouteOk m path)
          (seg_eq a "exec"
            && (length x == 64)
            && all is_hex x
            && (seg_eq op "start" || seg_eq op "resize" || seg_eq op "json"))
          _ _
          (λ h.
            let k = exec_makes a x op (and_first _ _ (and_first _ _ (and_first _ _ h))) in
            rw k refl)
          (λ n2. tt))

long_makes :
    (a b c : Text) (rest : List Text)
    → text_eq a (codes "images") ≡ true
    → makes ([] ∷ a ∷ b ∷ c ∷ rest) ≡ false
unfolding makes text_eq
long_makes a b c [] h = rw ((text_eq_iff a (codes "images")).0 h) refl
long_makes a b c (d ∷ rest) h = refl

long-RouteOk :
    (m : Method) (a b c : Text) (rest : List Text)
    → RouteOk m ([] ∷ a ∷ b ∷ c ∷ rest) (pattern_route m a (b ∷ c ∷ rest))
long-RouteOk m a b c [] = pattern_two-RouteOk m a b c
long-RouteOk m a b c (d ∷ rest) = (unfold RouteOk in unfold pattern_route in tt)

-- the routes that find_route finds
pub find_route-RouteOk :
    (m : Method) (dirs : Bool) (path : List Text) → RouteOk m path (find_route m dirs path)
unfolding find_route RouteOk pattern_route
find_route-RouteOk m dirs [] = tt
find_route-RouteOk m dirs ([] ∷ []) = tt
find_route-RouteOk m dirs ([] ∷ a ∷ []) =
    or_route-RouteOk m ([] ∷ a ∷ []) (fixed_one m a) nowhere (fixed_one-MaybeOk m a) tt
find_route-RouteOk m dirs ([] ∷ a ∷ b ∷ []) =
    or_route-RouteOk m ([] ∷ a ∷ b ∷ []) (fixed_two m dirs a b) (pattern_route m a (b ∷ []))
      (fixed_two-MaybeOk m dirs a b) (pattern_one-RouteOk m a b)
find_route-RouteOk m dirs ([] ∷ a ∷ b ∷ c ∷ rest) =
    let path : List Text = [] ∷ a ∷ b ∷ c ∷ rest in
    if-when (RouteOk m path) (seg_eq a "images" && ends_json false (b ∷ c ∷ rest) && is_get m) _ _
      (λ h. let k = long_makes a b c rest (and_first _ _ (and_first _ _ h)) in rw k refl)
      (λ n.
        if-when (RouteOk m path) (is_workspace_path a (b ∷ c ∷ rest) && is_delete m && dirs) _ _
          (λ h. tt) (λ n2. long-RouteOk m a b c rest))
find_route-RouteOk m dirs ((x ∷ s) ∷ path) = tt
