-- ===== src/Policy/Merged.antt =====
-- The rules of AdGuard that are not the job's: `merge_rules` of adguard/childpolicy.py.
use minisserver_compose.Prelude.{
  ◌≡◌, ◌≢◌, text_eq→eq, refl, ap, ◌∙◌, inl, inr, true, false, List, [], ◌∷◌, ◌++◌, map, Bool-cases,
  Text, codes, member, text_eq, All, All-append, All-map, if-both,
}
use mathlib.Core.List.{append_assoc, map-append}
use minisserver_compose.Policy.{
  Line, begins, ends, catch_all, denies, allows, print, begin_mark, end_mark, outside, merge_rules,
  Files, Clock, Override, client_lines, all_lines, render_block, deny_lines, allow_lines,
  targets_of, denied,
}

-- No marker.
abbrev IsPlain : Text → Type 0
IsPlain r = (text_eq r begin_mark ≡ false) × (text_eq r end_mark ≡ false)

outside-kept :
    (xs ys : List Text) → All IsPlain xs → outside false (xs ++ ys) ≡ xs ++ outside false ys
unfolding outside
outside-kept [] ys h = refl
outside-kept (x ∷ xs) ys ((n, m), h) =
    rw (n, m, outside) (ap (λ (t : List Text). x ∷ t) (outside-kept xs ys h))

outside-skipped : (xs ys : List Text) → All IsPlain xs → outside true (xs ++ ys) ≡ outside true ys
unfolding outside
outside-skipped [] ys h = refl
outside-skipped (x ∷ xs) ys ((n, m), h) = rw (n, m, outside) (outside-skipped xs ys h)

-- The lines between the markers.
abbrev IsClientLine : Line → Type 0
IsClientLine l = IsPlain (print l)

catch_all-IsClientLine : (ip : Text) → IsClientLine (catch_all ip)
unfolding print text_eq
catch_all-IsClientLine ip = (refl, refl)

denies-IsClientLine : (d ip : Text) → IsClientLine (denies d ip)
unfolding print text_eq
denies-IsClientLine d ip = (refl, refl)

allows-IsClientLine : (d ip : Text) → IsClientLine (allows d ip)
unfolding print text_eq
allows-IsClientLine d ip = (refl, refl)

client_lines-IsClientLine :
    (f : Files) (now : Clock) (os : List Override) (ip : Text)
    → All IsClientLine (client_lines f now os ip)
unfolding client_lines
client_lines-IsClientLine f now os ip =
    let targets = targets_of ip os in
    let deny : All IsClientLine (deny_lines f ip) =
      All-map IsClientLine (λ (d : Text). denies d ip) (λ d. denies-IsClientLine d ip) (denied f) in
    let allow : All IsClientLine (allow_lines f now ip targets) =
      All-map IsClientLine (λ (d : Text). allows d ip) (λ d. allows-IsClientLine d ip) _ in
    let blocked : All IsClientLine
        (catch_all ip ∷ (deny_lines f ip ++ allow_lines f now ip targets)) =
      (catch_all-IsClientLine ip, All-append IsClientLine (deny_lines f ip) _ deny allow) in
    if-both (All IsClientLine) (member (codes "all") targets) deny blocked

all_lines-IsClientLine :
    (f : Files) (now : Clock) (os : List Override) (ips : List Text)
    → All IsClientLine (all_lines f now os ips)
unfolding all_lines
all_lines-IsClientLine f now os [] = tt
all_lines-IsClientLine f now os (ip ∷ ips) =
    All-append IsClientLine (client_lines f now os ip) _ (client_lines-IsClientLine f now os ip)
      (all_lines-IsClientLine f now os ips)

printed-IsPlain : (ls : List Line) → All IsClientLine ls → All IsPlain (map print ls)
printed-IsPlain [] h = tt
printed-IsPlain (l ∷ ls) h = (h.0, printed-IsPlain ls h.1)

-- A rule of somebody else: neither marker.
abbrev pub IsOther : Text → Type 0
IsOther r = (r ≢ begin_mark) × (r ≢ end_mark)

text_eq-ne : (r t : Text) → r ≢ t → text_eq r t ≡ false
text_eq-ne r t ne = elim (Bool-cases (text_eq r t)) [
  | inl y ↦ absurd (ne (text_eq→eq r t y))
  | inr n ↦ n
]

IsOther-IsPlain : (rs : List Text) → All IsOther rs → All IsPlain rs
IsOther-IsPlain [] h = tt
IsOther-IsPlain (r ∷ rs) ((b, e), h) =
    ((text_eq-ne r begin_mark b, text_eq-ne r end_mark e), IsOther-IsPlain rs h)

outside_itself : (rs : List Text) → All IsPlain rs → outside false rs ≡ rs
unfolding outside
outside_itself [] h = refl
outside_itself (r ∷ rs) ((n, m), h) =
    rw (n, m, outside) (ap (λ (t : List Text). r ∷ t) (outside_itself rs h))

-- A printed block is taken away as a whole, and nothing behind it.
outside-block :
    (ls : List Line) (post : List Text)
    → All IsClientLine ls
    → All IsPlain post
    → outside false (map print (begins ∷ (ls ++ (ends ∷ []))) ++ post) ≡ post
unfolding outside print
outside-block ls post h k =
    ap (λ (t : List Text). outside true (t ++ post)) (map-append print ls (ends ∷ []))
    ∙ (ap (outside true) (append_assoc (map print ls) (end_mark ∷ []) post)
        ∙ (outside-skipped (map print ls) (end_mark ∷ post) (printed-IsPlain ls h)
            ∙ outside_itself post k))

-- A run leaves the rules of others alone, none of which is a marker, those before the block that an
-- earlier run wrote and those that were put behind it, in their order, takes that block away and writes
-- its own at the end. Where there is no block yet, it only adds its own.
pub merge_rules_again :
    (before behind : List Text) (f g : Files) (now later : Clock) (os ps : List Override)
    (ips jps : List Text)
    → All IsOther before
    → All IsOther behind
    → (merge_rules before (map print (render_block f now os ips))
        ≡ before ++ map print (render_block f now os ips))
      × (merge_rules
            (before ++ (map print (render_block f now os ips) ++ behind))
            (map print (render_block g later ps jps))
          ≡ (before ++ behind) ++ map print (render_block g later ps jps))
unfolding merge_rules render_block
merge_rules_again before behind f g now later os ps ips jps h k =
    let block = map print (render_block f now os ips) in
    let mine = IsOther-IsPlain before h in
    let gone =
      outside-block (all_lines f now os ips) behind (all_lines-IsClientLine f now os ips)
        (IsOther-IsPlain behind k) in
    let same : outside false (before ++ (block ++ behind)) ≡ before ++ behind =
      outside-kept before (block ++ behind) mine ∙ ap (λ (t : List Text). before ++ t) gone in
    (
      ap (λ (t : List Text). t ++ block) (outside_itself before mine),
      ap (λ (t : List Text). t ++ map print (render_block g later ps jps)) same,
    )
