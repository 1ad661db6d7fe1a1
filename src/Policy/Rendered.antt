-- ===== src/Policy/Rendered.antt =====
-- What the block of adguard/childpolicy.py lets through.
use minisserver_compose.Prelude.{
  ◌≡◌, ◌≢◌, ◌||◌, refl, sym, ap, ◌∙◌, subst, any, text_eq, text_eq_refl, text_eq→eq, ends_with, inl,
  inr, Bool, true, false, not, List, [], ◌∷◌, ◌++◌, map, keep_if, Bool-cases, arith, Text, codes,
  text_leb, member, member-In, In-sort, ends_with-append_right, In, here, there, In-append_left,
  In-append_right, In-map, each_once, All, All-In, All-append, All-map, All-sort, if-both,
}
use minisserver_compose.Policy.{
  Line, begins, ends, catch_all, denies, allows, Files, Clock, Override, client_lines, all_lines,
  render_block, deny_lines, allow_lines, targets_of, denied, allowed, is_under, is_under_any,
  sorted_set,
}

client_lines-In :
    (f : Files) (now : Clock) (os : List Override) (ip : Text) (ips : List Text) (l : Line)
    → In ip ips
    → In l (client_lines f now os ip)
    → In l (all_lines f now os ips)
unfolding all_lines
client_lines-In f now os ip [] l i h = elim i [ ]
client_lines-In f now os ip (x ∷ xs) l (here e) h =
    In-append_left _ _ (subst (λ (z : Text). In l (client_lines f now os z)) e h)
client_lines-In f now os ip (x ∷ xs) l (there i) h =
    In-append_right (client_lines f now os x) _ (client_lines-In f now os ip xs l i h)

deny_lines-In :
    (f : Files) (now : Clock) (os : List Override) (ip d : Text)
    → In d (denied f)
    → In (denies d ip) (client_lines f now os ip)
unfolding client_lines
deny_lines-In f now os ip d h =
    let it = In-map (λ (x : Text). denies x ip) (denied f) h in
    if-both (In (denies d ip)) (member (codes "all") (targets_of ip os)) it
      (there (In-append_left (deny_lines f ip) _ it))

-- A domain that is allowed is under no denied one.
abbrev IsSafe : Files → Line → Type 0
IsSafe f (allows d ip) = is_under_any d (denied f) ≡ false
IsSafe f _ = Unit

All-keep_if-true :
    (p : Text → Bool) (xs : List Text) → All (λ (x : Text). p x ≡ true) (keep_if p xs)
All-keep_if-true p [] = tt
All-keep_if-true p (x ∷ xs) = elim (Bool-cases (p x)) [
  | inl y ↦ rw y (y, All-keep_if-true p xs)
  | inr n ↦ rw n (All-keep_if-true p xs)
]

All-each_once : (P : Text → Type 0) (ts : List Text) → All P ts → All P (each_once ts)
All-each_once P [] h = tt
All-each_once P (t ∷ ts) h =
    let rest = All-each_once P ts h.1 in if-both (All P) (member t ts) rest (h.0, rest)

-- Of a client's lines, those that allow.
allow_lines-IsSafe :
    (f : Files) (now : Clock) (ip : Text) (targets : List Text)
    → All (IsSafe f) (allow_lines f now ip targets)
allow_lines-IsSafe f now ip targets =
    let open_ones =
      keep_if (λ (d : Text). not (is_under_any d (denied f))) (allowed f now targets) in
    let kept =
      All-keep_if-true (λ (d : Text). not (is_under_any d (denied f))) (allowed f now targets) in
    let set = All-sort text_leb _ (each_once open_ones) (All-each_once _ open_ones kept) in
    go (sorted_set open_ones) set
  where
    go :
        (ds : List Text)
        → All (λ (d : Text). not (is_under_any d (denied f)) ≡ true) ds
        → All (IsSafe f) (map (λ (d : Text). allows d ip) ds)
    go [] h = tt
    go (d ∷ ds) h = (ground (arith, h.0), go ds h.1)

deny_lines-IsSafe : (f : Files) (ip : Text) → All (IsSafe f) (deny_lines f ip)
deny_lines-IsSafe f ip = All-map (IsSafe f) (λ (d : Text). denies d ip) (λ d. tt) (denied f)

client_lines-IsSafe :
    (f : Files) (now : Clock) (os : List Override) (ip : Text)
    → All (IsSafe f) (client_lines f now os ip)
unfolding client_lines
client_lines-IsSafe f now os ip =
    let targets = targets_of ip os in
    let open_lines : All (IsSafe f)
        (catch_all ip ∷ (deny_lines f ip ++ allow_lines f now ip targets)) =
      (
        tt,
        All-append (IsSafe f) (deny_lines f ip) _ (deny_lines-IsSafe f ip)
            (allow_lines-IsSafe f now ip targets),
      ) in
    if-both (All (IsSafe f)) (member (codes "all") targets) (deny_lines-IsSafe f ip) open_lines

all_lines-IsSafe :
    (f : Files) (now : Clock) (os : List Override) (ips : List Text)
    → All (IsSafe f) (all_lines f now os ips)
unfolding all_lines
all_lines-IsSafe f now os [] = tt
all_lines-IsSafe f now os (ip ∷ ips) =
    All-append (IsSafe f) (client_lines f now os ip) _ (client_lines-IsSafe f now os ip)
      (all_lines-IsSafe f now os ips)

-- A domain is another one or below it.
pub data Under (domain parent : Text) : Type 0 where
  itself : domain ≡ parent → Under domain parent
  below : (front : Text) → domain ≡ front ++ (codes "." ++ parent) → Under domain parent

Under-is_under : (d p : Text) → Under d p → is_under d p ≡ true
unfolding is_under
Under-is_under d p (itself e) = rw (e, text_eq_refl p) refl
Under-is_under d p (below front e) =
    let found : ends_with d (46 ∷ p) ≡ true =
      ap (λ (t : Text). ends_with t (46 ∷ p)) e ∙ ends_with-append_right front (46 ∷ p) in
    rw found (or_true (text_eq d p))
  where
    or_true : (b : Bool) → (b || true) ≡ true
    or_true true = refl
    or_true false = refl

any-true : (p : Text → Bool) (x : Text) (xs : List Text) → In x xs → p x ≡ true → any p xs ≡ true
any-true p x [] i h = elim i [ ]
any-true p x (y ∷ ys) (here e) h = let first : p y ≡ true = ap p (sym e) ∙ h in rw first refl
any-true p x (y ∷ ys) (there i) h = elim (Bool-cases (p y)) [
  | inl k ↦ rw k refl
  | inr n ↦ rw n (any-true p x ys i h)
]

In-each_once : (x : Text) (ts : List Text) → In x ts → In x (each_once ts)
In-each_once x [] i = elim i [ ]
In-each_once x (t ∷ ts) (here e) = elim (Bool-cases (member t ts)) [
  | inl y ↦ rw y (In-each_once x ts (subst (λ (z : Text). In z ts) (sym e) (member-In t ts y)))
  | inr n ↦ rw n (here e)
]
In-each_once x (t ∷ ts) (there i) =
    let rest = In-each_once x ts i in if-both (In x) (member t ts) rest (there rest)

In-denied : (f : Files) (d : Text) → In d f.extra_deny → In d (denied f)
In-denied f d i = In-sort text_leb d (each_once f.extra_deny) (In-each_once d f.extra_deny i)

-- A block that guards a client: each domain of the list of denied ones is denied to it, the catch-all
-- stands unless an override opens everything to it, and nobody is allowed a domain of that list or one
-- below it.
pub record IsGuarding (f : Files) (os : List Override) (ip : Text) (ls : List Line) : Type 0 where
  pub denied_always : (d : Text) → In d f.extra_deny → In (denies d ip) ls
  pub caught :
      ((o : Override) → In o os → o.client ≡ ip → o.target ≢ codes "all") → In (catch_all ip) ls
  pub denied_wins : (x d jp : Text) → In x f.extra_deny → Under d x → In (allows d jp) ls → ⊥

is_under_any-In :
    (f : Files) (d x : Text) → In x f.extra_deny → Under d x → is_under_any d (denied f) ≡ true
unfolding is_under_any
is_under_any-In f d x i u =
    any-true (is_under d) x (denied f) (In-denied f x i) (Under-is_under d x u)

In-targets_of :
    (ip : Text) (os : List Override) (t : Text)
    → In t (targets_of ip os)
    → (o : Override) × In o os × (o.client ≡ ip) × (o.target ≡ t)
unfolding text_eq
In-targets_of ip [] t i = elim i [ ]
In-targets_of ip (o ∷ os) t i = elim (Bool-cases (text_eq o.client ip)) [
  | inl y ↦ elim (rw y at i) [
    | here e ↦ (o, here refl, text_eq→eq o.client ip y, sym e)
    | there j ↦ let (p, k, c, e) = In-targets_of ip os t j in (p, there k, c, e)
  ]
  | inr n ↦ let (p, k, c, e) = In-targets_of ip os t (rw n at i) in (p, there k, c, e)
]

not_all :
    (ip : Text) (os : List Override)
    → ((o : Override) → In o os → o.client ≡ ip → o.target ≢ codes "all")
    → member (codes "all") (targets_of ip os) ≡ false
not_all ip os h = elim (Bool-cases (member (codes "all") (targets_of ip os))) [
  | inl y ↦
      let (o, i, c, e) = In-targets_of ip os (codes "all") (member-In (codes "all") _ y) in
      absurd (h o i c e)
  | inr n ↦ n
]

-- The block that a run renders guards each client that it is rendered for: every domain of deny-extra
-- has its line for the client, also where an override opens everything; a client without such an
-- override has the catch-all; and no line allows anybody a domain of deny-extra or one below it. That
-- an allowed domain stands above a denied one is not excluded.
pub render_block-IsGuarding :
    (f : Files) (now : Clock) (os : List Override) (ips : List Text) (ip : Text)
    → In ip ips
    → IsGuarding f os ip (render_block f now os ips)
unfolding render_block client_lines
render_block-IsGuarding f now os ips ip i =
    let inside = λ (l : Line). λ (h : In l (client_lines f now os ip)). there {x = begins} (
      In-append_left (all_lines f now os ips) (ends ∷ [])
        (client_lines-In f now os ip ips l i h)) in
    record {
      denied_always = λ d h. inside (denies d ip) (deny_lines-In f now os ip d (In-denied f d h));
      caught = λ h. inside (catch_all ip) (rw (not_all ip os h) (here refl));
      denied_wins = λ x d jp m u h.
          let safe =
            All-In (IsSafe f) (render_block f now os ips)
              (
                tt,
                All-append (IsSafe f) (all_lines f now os ips) (ends ∷ [])
                    (all_lines-IsSafe f now os ips) (tt, tt),
              )
              h in
          let denies_it = is_under_any-In f d x m u in absurd (cc (safe, denies_it));
    }
