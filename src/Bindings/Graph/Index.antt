-- ===== src/Bindings/Graph/Index.antt =====
-- The index of modules by namespace that `validate_graph` builds.
use reiny.Prelude.{
  ◌≡◌, ◌↔◌, refl, sym, ap, ◌∙◌, Bool, true, false, Option, none, some, List, [], ◌∷◌, Bytes, ok,
  run_each, seq_iff, require_iff, refuse_iff, ok_iff, iff_trans, both_iff, iff_refl, All, All-iff,
  All-both, get, insert, get-insert_hit, get-insert_other, insert-eq-none, same_key, same_key-eq,
  same_key_apart, Bool-cases, inl, inr, is_some_iff, bytes_eq, bytes_eq_iff, bytes_key,
  if◌then◌else◌, >>=-eq-ok,
}
use reiny.Bindings.ReportTypes.{ModuleReport, ReportEntry}
use reiny.Bindings.Graph.{Modules, check_member}

-- The report of the first module of that namespace.
abbrev pub report_at : List ReportEntry → Bytes → Option ModuleReport
report_at [] namespace = none
report_at (entry ∷ rest) namespace =
    if bytes_eq entry.bindings.namespace namespace
    then some entry.report
    else report_at rest namespace

-- The modules are pairwise of different namespaces, none of them an owned child.
abbrev pub AreTopLevel : List ReportEntry → Type 0
AreTopLevel [] = Unit {0}
AreTopLevel (entry ∷ rest) =
    (entry.bindings.namespace ≡ entry.bindings.endpoint_namespace)
    × ((report_at rest entry.bindings.namespace ≡ none) × AreTopLevel rest)

abbrev pub indexed : Modules → List ReportEntry → Modules
indexed modules [] = modules
indexed modules (entry ∷ rest) = indexed (insert entry.bindings.namespace entry.report modules) rest

-- What the rounds ask of the index that they start on.
abbrev Fits : Modules → List ReportEntry → Type 0
Fits modules [] = Unit {0}
Fits modules (entry ∷ rest) =
    (entry.bindings.namespace ≡ entry.bindings.endpoint_namespace)
    × ((get modules entry.bindings.namespace ≡ none)
        × Fits (insert entry.bindings.namespace entry.report modules) rest)

member_iff :
    (modules : Modules) (entry : ReportEntry) (after : Modules)
    → (check_member modules entry ≡ ok after) ↔ (
        (entry.bindings.namespace ≡ entry.bindings.endpoint_namespace)
        × ((get modules entry.bindings.namespace ≡ none)
            × (after ≡ insert entry.bindings.namespace entry.report modules)))
unfolding check_member
member_iff modules entry after =
    seq_iff
      (require_iff _ _ (bytes_eq_iff entry.bindings.namespace entry.bindings.endpoint_namespace))
      (seq_iff (refuse_iff _ _ (is_some_iff (get modules entry.bindings.namespace)))
        (ok_iff (insert entry.bindings.namespace entry.report modules) after))

members_iff :
    (modules : Modules) (entries : List ReportEntry) (after : Modules)
    → (run_each check_member modules entries ≡ ok after)
      ↔ (Fits modules entries × (after ≡ indexed modules entries))
members_iff modules [] after =
    (λ h. (tt, (ok_iff modules after).0 h), λ h. (ok_iff modules after).1 h.1)
members_iff modules (entry ∷ rest) after =
    let next = insert entry.bindings.namespace entry.report modules in
    (
      λ h.
          let first =
            >>=-eq-ok (check_member modules entry) (λ s. run_each check_member s rest) h in
          let head = (member_iff modules entry first.0).0 first.1 in
          let same = head.1.1 in
          let tail =
            (members_iff next rest after).0
              (sym (ap (λ s. run_each check_member s rest) same) ∙ first.2) in
          ((head.0, (head.1.0, tail.0)), tail.1),
      λ h.
          let now = (member_iff modules entry next).1 (h.0.0, (h.0.1.0, refl)) in
          rw now ((members_iff next rest after).1 (h.0.1.1, h.1)),
    )

-- No module of the list has the namespace.
abbrev IsAbsent : Bytes → List ReportEntry → Type 0
IsAbsent namespace entries =
    All (λ entry. bytes_eq entry.bindings.namespace namespace ≡ false) entries

report_at_by :
    (entry : ReportEntry) (rest : List ReportEntry) (namespace : Bytes) (b : Bool)
    → ((if b then some entry.report else report_at rest namespace) ≡ none)
      ↔ ((b ≡ false) × (report_at rest namespace ≡ none))
report_at_by entry rest namespace true = (λ h. cc, λ h. let e = h.0 in cc)
report_at_by entry rest namespace false = (λ h. (refl, h), λ h. h.1)

report_at_iff :
    (entries : List ReportEntry) (namespace : Bytes)
    → (report_at entries namespace ≡ none) ↔ IsAbsent namespace entries
report_at_iff [] namespace = (λ _. tt, λ _. refl)
report_at_iff (entry ∷ rest) namespace =
    iff_trans (report_at_by entry rest namespace (bytes_eq entry.bindings.namespace namespace))
      (both_iff (iff_refl _) (report_at_iff rest namespace))

-- After a round, the modules to come are absent where they were and where they differ.
IsAbsent-insert :
    (modules : Modules) (entry : ReportEntry) (rest : List ReportEntry)
    → All
        (λ later.
          get (insert entry.bindings.namespace entry.report modules) later.bindings.namespace
          ≡ none)
        rest
      ↔ (IsAbsent entry.bindings.namespace rest
          × All (λ later. get modules later.bindings.namespace ≡ none) rest)
IsAbsent-insert modules entry rest =
    iff_trans
      (All-iff rest (λ later.
        iff_trans
          (insert-eq-none later.bindings.namespace entry.bindings.namespace entry.report modules)
          (both_iff
            (
              same_key_apart entry.bindings.namespace later.bindings.namespace,
              same_key_apart later.bindings.namespace entry.bindings.namespace,
            )
            (iff_refl _))))
      (All-both _ _ rest)

-- An index fits where it lacks every module and the modules are pairwise different.
Fits-AreTopLevel :
    (modules : Modules) (entries : List ReportEntry)
    → Fits modules entries
      ↔ (All (λ entry. get modules entry.bindings.namespace ≡ none) entries × AreTopLevel entries)
Fits-AreTopLevel modules [] = (λ _. (tt, tt), λ _. tt)
Fits-AreTopLevel modules (entry ∷ rest) =
    let next = insert entry.bindings.namespace entry.report modules in
    let later = Fits-AreTopLevel next rest in
    let absent = IsAbsent-insert modules entry rest in
    let named = report_at_iff rest entry.bindings.namespace in
    (
      λ h.
          let below = later.0 h.1.1 in
          let parts = absent.0 below.0 in ((h.1.0, parts.1), (h.0, (named.1 parts.0, below.1))),
      λ h. (h.1.0, (h.0.0, later.1 (absent.1 (named.0 h.1.1.0, h.0.1), h.1.1.1))),
    )

get-indexed_old :
    (modules : Modules) (entries : List ReportEntry) (namespace : Bytes) (report : ModuleReport)
    → Fits modules entries
    → get modules namespace ≡ some report
    → get (indexed modules entries) namespace ≡ some report
get-indexed_old modules [] namespace report fits old = old
get-indexed_old modules (entry ∷ rest) namespace report fits old =
    let next = insert entry.bindings.namespace entry.report modules in
    elim (Bool-cases (same_key entry.bindings.namespace namespace)) [
      | inl e ↦
          let same = same_key-eq entry.bindings.namespace namespace e in
          let gone : get modules namespace ≡ none = rw (sym same) fits.1.0 in cc
      | inr e ↦
          let kept : get next namespace ≡ some report =
            get-insert_other namespace entry.bindings.namespace entry.report modules e ∙ old in
          get-indexed_old next rest namespace report fits.1.1 kept
    ]

get-indexed :
    (modules : Modules) (entries : List ReportEntry) (namespace : Bytes)
    → Fits modules entries
    → get modules namespace ≡ none
    → get (indexed modules entries) namespace ≡ report_at entries namespace
get-indexed modules [] namespace fits absent = absent
get-indexed modules (entry ∷ rest) namespace fits absent =
    let next = insert entry.bindings.namespace entry.report modules in
    elim (Bool-cases (same_key entry.bindings.namespace namespace)) [
      | inl e ↦
          let held : get next namespace ≡ some entry.report =
            get-insert_hit namespace entry.bindings.namespace entry.report modules e in
          rw e (get-indexed_old next rest namespace entry.report fits.1.1 held)
      | inr e ↦
          let kept : get next namespace ≡ none =
            get-insert_other namespace entry.bindings.namespace entry.report modules e ∙ absent in
          rw e (get-indexed next rest namespace fits.1.1 kept)
    ]

nothing_held :
    (entries : List ReportEntry)
    → All (λ entry. get (let m : Modules = [] in m) entry.bindings.namespace ≡ none) entries
nothing_held [] = tt
nothing_held (entry ∷ rest) = (refl, nothing_held rest)

-- The loop accepts top-level modules of different namespaces, and its index finds them.
pub index_iff :
    (entries : List ReportEntry) (modules : Modules)
    → (run_each check_member [] entries ≡ ok modules)
      ↔ (AreTopLevel entries × (modules ≡ indexed [] entries))
index_iff entries modules =
    let fits = Fits-AreTopLevel [] entries in
    iff_trans (members_iff [] entries modules)
      (both_iff (λ f. (fits.0 f).1, λ top. fits.1 (nothing_held entries, top)) (iff_refl _))

pub get-index :
    (entries : List ReportEntry) (namespace : Bytes)
    → AreTopLevel entries
    → get (indexed [] entries) namespace ≡ report_at entries namespace
get-index entries namespace top =
    get-indexed [] entries namespace ((Fits-AreTopLevel [] entries).1 (nothing_held entries, top))
      refl
