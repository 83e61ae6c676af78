-- ===== src/Acceptor/Ingress.antt =====
-- acceptor/ingress.go: what a client's query goes through before the pipeline sees it.
use opentelemetry_querier.Base.{
  String, false, List, [], ◌∷◌, ◌++◌, ◌≡◌, refl, sym, arith, ◌&&◌, not, All, str_eq, str_eq_iff,
  equal_fold, equal_fold_sym, equal_fold_refl, if◌then◌else◌, Bool-cases, inl, inr, ◌∙◌, append-nil,
  append_assoc,
}
use opentelemetry_querier.Base.Assoc.{Assoc, insert}
use opentelemetry_querier.Qdata.Query.{Query}
use opentelemetry_querier.Processor.Header.{FoldDistinct}

-- `sanitize`
unfoldable pub sanitize : Query → Query
sanitize q = record q {
  metadata = [];
  header = [];
  enforced_matchers = [];
  enforced_predicates = [];
}

-- the inner loop of `injectHeaders`: another spelling of the name goes
unfoldable pub drop_spellings : String → Assoc (List String) → Assoc (List String)
drop_spellings key [] = []
drop_spellings key ((existing, values) ∷ header) =
    let rest = drop_spellings key header in
    if not (str_eq existing key) && equal_fold existing key then rest else (existing, values) ∷ rest

-- the outer loop of `injectHeaders`, over the transport's headers
unfoldable pub inject_into : Assoc (List String) → Assoc (List String) → Assoc (List String)
unfolding drop_spellings
inject_into [] header = header
inject_into ((key, values) ∷ source) header =
    inject_into source (insert key values (drop_spellings key header))

-- `injectHeaders`; with no source header it changes nothing, as the loop does.
unfoldable pub inject_headers : Query → Assoc (List String) → Query
unfolding inject_into
inject_headers q source = record q { header = inject_into source q.header }

-- `PrepareIngress`
unfoldable pub prepare_ingress : Query → Assoc (List String) → Query
unfolding sanitize inject_headers
prepare_ingress q source = inject_headers (sanitize q) source

-- No name of the list equals `key` up to case.
abbrev Apart : String → Assoc (List String) → Type 0
Apart key = All (λ e. equal_fold e.0 key ≡ false)

drop_spellings-Apart :
    (key : String) (header : Assoc (List String))
    → Apart key header
    → drop_spellings key header ≡ header
unfolding drop_spellings
drop_spellings-Apart key [] h = refl
drop_spellings-Apart key ((k, vs) ∷ header) h = ground (arith, drop_spellings-Apart key header h.1)

insert-Apart :
    (key : String) (values : List String) (header : Assoc (List String))
    → Apart key header
    → insert key values header ≡ header ++ (key, values) ∷ []
unfolding insert
insert-Apart key values [] h = refl
insert-Apart key values ((k, vs) ∷ header) h =
    ground (arith, insert-Apart key values header h.1, str_eq_iff k key, equal_fold_refl key)

Apart-drop :
    (k key : String) (header : Assoc (List String))
    → Apart k header
    → Apart k (drop_spellings key header)
unfolding drop_spellings
Apart-drop k key [] h = tt
Apart-drop k key ((j, vs) ∷ header) h = elim (Bool-cases (not (str_eq j key) && equal_fold j key)) [
  | inl e ↦ rw e (Apart-drop k key header h.1)
  | inr e ↦ rw e (h.0, Apart-drop k key header h.1)
]

Apart-insert :
    (k key : String) (values : List String) (header : Assoc (List String))
    → equal_fold key k ≡ false
    → Apart k header
    → Apart k (insert key values header)
unfolding insert
Apart-insert k key values [] e h = (e, tt)
Apart-insert k key values ((j, vs) ∷ header) e h = elim (Bool-cases (str_eq j key)) [
  | inl p ↦ rw p (h.0, h.1)
  | inr p ↦ rw p (h.0, Apart-insert k key values header e h.1)
]

drop-FoldDistinct :
    (key : String) (header : Assoc (List String))
    → FoldDistinct header
    → FoldDistinct (drop_spellings key header)
unfolding drop_spellings
drop-FoldDistinct key [] d = tt
drop-FoldDistinct key ((j, vs) ∷ header) d =
    elim (Bool-cases (not (str_eq j key) && equal_fold j key)) [
      | inl e ↦ rw e (drop-FoldDistinct key header d.1)
      | inr e ↦ rw e (Apart-drop j key header d.0, drop-FoldDistinct key header d.1)
    ]

-- After the drop, the only name left that equals `key` up to case is `key`.
abbrev OnlySpelling : String → Assoc (List String) → Type 0
OnlySpelling key = All (λ e. (str_eq e.0 key ≡ false) → (equal_fold e.0 key ≡ false))

drop-OnlySpelling :
    (key : String) (header : Assoc (List String)) → OnlySpelling key (drop_spellings key header)
unfolding drop_spellings
drop-OnlySpelling key [] = tt
drop-OnlySpelling key ((j, vs) ∷ header) =
    elim (Bool-cases (not (str_eq j key) && equal_fold j key)) [
      | inl e ↦ rw e (drop-OnlySpelling key header)
      | inr e ↦ rw e (λ p. ground arith, drop-OnlySpelling key header)
    ]

insert-FoldDistinct :
    (key : String) (values : List String) (header : Assoc (List String))
    → OnlySpelling key header
    → FoldDistinct header
    → FoldDistinct (insert key values header)
unfolding insert
insert-FoldDistinct key values [] o d = (tt, tt)
insert-FoldDistinct key values ((j, vs) ∷ header) o d = elim (Bool-cases (str_eq j key)) [
  | inl p ↦ rw p (d.0, d.1)
  | inr p ↦ rw p (
    Apart-insert j key values header (equal_fold_sym key j ∙ o.0 p) d.0,
    insert-FoldDistinct key values header o.1 d.1,
  )
]

inject-FoldDistinct :
    (source header : Assoc (List String))
    → FoldDistinct header
    → FoldDistinct (inject_into source header)
unfolding inject_into
inject-FoldDistinct [] header d = d
inject-FoldDistinct ((key, values) ∷ source) header d =
    inject-FoldDistinct source (insert key values (drop_spellings key header)) (
      insert-FoldDistinct key values (drop_spellings key header) (drop-OnlySpelling key header)
        (drop-FoldDistinct key header d))

-- Whatever the transport sends, no two header names of an admitted query are equal up to case.
pub prepare_ingress-FoldDistinct :
    (q : Query) (source : Assoc (List String)) → FoldDistinct (prepare_ingress q source).header
unfolding prepare_ingress
prepare_ingress-FoldDistinct q source = inject-FoldDistinct source [] tt

-- Every name of `source` is apart from the names of `header`.
abbrev ApartAll : Assoc (List String) → Assoc (List String) → Type 0
ApartAll source header = All (λ e. Apart e.0 header) source

Apart-append :
    (k : String) (xs ys : Assoc (List String)) → Apart k xs → Apart k ys → Apart k (xs ++ ys)
Apart-append k [] ys hx hy = hy
Apart-append k (x ∷ xs) ys hx hy = (hx.0, Apart-append k xs ys hx.1 hy)

ApartAll-snoc :
    (key : String) (values : List String) (source header : Assoc (List String))
    → All (λ e. equal_fold e.0 key ≡ false) source
    → ApartAll source header
    → ApartAll source (header ++ (key, values) ∷ [])
ApartAll-snoc key values [] header h a = tt
ApartAll-snoc key values ((k, vs) ∷ source) header h a = (
  Apart-append k header ((key, values) ∷ []) a.0 (equal_fold_sym key k ∙ h.0, tt),
  ApartAll-snoc key values source header h.1 a.1,
)

inject-append :
    (source header : Assoc (List String))
    → FoldDistinct source
    → ApartAll source header
    → inject_into source header ≡ header ++ source
unfolding inject_into
inject-append [] header d a = sym (append-nil header)
inject-append ((key, values) ∷ source) header d a =
    rw (drop_spellings-Apart key header a.0, insert-Apart key values header a.0)
      (inject-append source (header ++ (key, values) ∷ []) d.1
          (ApartAll-snoc key values source header d.0 a.1)
        ∙ append_assoc header ((key, values) ∷ []) source)

ApartAll-nil : (source : Assoc (List String)) → ApartAll source []
ApartAll-nil [] = tt
ApartAll-nil (e ∷ source) = (tt, ApartAll-nil source)

-- Where no two names that the transport sends are equal up to case, an admitted query carries
-- exactly the transport's headers, no metadata and no enforcement, whatever the client wrote there,
-- and the rest of the query is the client's.
pub prepare_ingress_lem :
    (q : Query) (source : Assoc (List String))
    → FoldDistinct source
    → prepare_ingress q source ≡ record q {
      metadata = [];
      header = source;
      enforced_matchers = [];
      enforced_predicates = [];
    }
unfolding prepare_ingress
prepare_ingress_lem q source d = rw (inject-append source [] d (ApartAll-nil source))
