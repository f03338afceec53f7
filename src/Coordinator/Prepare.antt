-- ===== src/Coordinator/Prepare.antt =====
-- vector_lake/mutation_coordinator.py, `_prepare_mutations`: from requests to prepared mutations.
use vector_lake.Prelude.{
  ℕ, ◌≡◌, ◌≢◌, Bool, true, false, ◌&&◌, ◌||◌, not, Option, none, some, List, [], ◌∷◌, All, arith,
  ◌==◌, if◌then◌else◌, contains, refl, is_some, sym, ap, subst, ◌∙◌,
}
use vector_lake.Prelude.Sql.{All-imp}
use vector_lake.Prelude.Keys.{IsKeyed}
use vector_lake.Prelude.Result.{
  Result, ok, err, ◌>>=◌, ◌>>◌, require, require-eq-ok, >>=-eq-ok, ok-injective,
}
use vector_lake.Outbox.{MutationType, update, delete, ValidationMode, full, schema, is_delete}
use vector_lake.Outbox.Enqueue.{is_known_mode}
use vector_lake.Coordinator.{
  MutationError, value_error, Paths, Files, Validators, resolve_wiki_mutation_path, has_separator,
  is_dots, Expected, not_a_text, Request, Prepared,
}

abbrev pub is_not_a_text : Expected → Bool
is_not_a_text not_a_text = true
is_not_a_text _ = false

abbrev pub is_schema : ValidationMode → Bool
is_schema schema = true
is_schema _ = false

abbrev pub is_full : ValidationMode → Bool
is_full full = true
is_full _ = false

-- The checks of an update: its sources against those of the file that it replaces, then its text.
unfoldable pub check_content :
    Validators → Files → ValidationMode → ℕ → Option ℕ → Result MutationError (Unit {0})
check_content validators files mode f none = err value_error
check_content validators files mode f (some content) = do
  validators.check_placeholder_sources content (files f)
  let is_new = is_full mode && not (is_some (files f))
  if is_full mode
      then validators.verify_asset content f is_new
      else validators.validate_schema content f is_new

abbrev pub type_of : Bool → MutationType
type_of is_delete = if is_delete then delete else update

-- content or ''
abbrev pub content_or_empty : Option ℕ → ℕ
content_or_empty none = 0
content_or_empty (some c) = c

-- One round of the loop. `sha256` hashes the type, the name, the content, the expected version if
-- there is one, and the mode if it is not full.
unfoldable pub prepare_one :
    Paths
    → Validators
    → Files
    → (MutationType → ℕ → ℕ → Expected → ValidationMode → ℕ)
    → ValidationMode
    → List ℕ
    → Request
    → Result MutationError Prepared
unfolding check_content
prepare_one paths validators files sha256 mode seen r = do
  require (not (is_not_a_text r.expected_version)) value_error
  path ← resolve_wiki_mutation_path paths files r.filename (is_schema mode || r.is_delete) true
  require (not (contains seen path.1)) value_error
  if r.is_delete then ok tt else check_content validators files mode path.1 r.content
  ok (record {
    filename = path.1;
    content = r.content;
    mutation_type = type_of r.is_delete;
    expected_version = r.expected_version;
    idempotency_key =
        sha256 (type_of r.is_delete) path.1 (content_or_empty r.content) r.expected_version mode;
  })

unfoldable pub prepare_each :
    Paths
    → Validators
    → Files
    → (MutationType → ℕ → ℕ → Expected → ValidationMode → ℕ)
    → ValidationMode
    → List ℕ
    → List Request
    → Result MutationError (List Prepared)
unfolding prepare_one
prepare_each paths validators files sha256 mode seen [] = ok []
prepare_each paths validators files sha256 mode seen (r ∷ rs) = do
  p ← prepare_one paths validators files sha256 mode seen r
  ps ← prepare_each paths validators files sha256 mode (p.filename ∷ seen) rs
  ok (p ∷ ps)

abbrev pub is_empty {ℓ} : {A : Type ℓ} → List A → Bool
is_empty [] = true
is_empty (_ ∷ _) = false

unfoldable pub prepare_mutations :
    Paths
    → Validators
    → Files
    → (MutationType → ℕ → ℕ → Expected → ValidationMode → ℕ)
    → ValidationMode
    → List Request
    → Result MutationError (List Prepared)
unfolding prepare_each
prepare_mutations paths validators files sha256 mode requests = do
  require (is_known_mode mode) value_error
  prepared ← prepare_each paths validators files sha256 mode [] requests
  require (not (is_empty prepared)) value_error
  ok prepared

-- What a prepared mutation has passed: its name is a page of the wiki directory and not one of the
-- names before, it is an update or a deletion, and an update carries a text that its validators
-- accept.
pub record HasPassed (paths : Paths) (validators : Validators) (files : Files)
    (mode : ValidationMode) (seen : List ℕ) (p : Prepared) : Type 0 where
  pub new : contains seen p.filename ≡ false
  pub in_wiki : (paths.resolved p.filename).0 ≡ paths.wiki_root
  pub own_name : (paths.resolved p.filename).1 ≡ p.filename
  pub known_type : p.mutation_type ≡ type_of (is_delete p.mutation_type)
  pub accepted :
      is_delete p.mutation_type ≡ false
      → check_content validators files mode p.filename p.content ≡ ok tt

-- A name that resolves is that of a page in the wiki directory.
pub resolved_page :
    (paths : Paths) (files : Files) (f : ℕ) (allow validate : Bool) (path : ℕ × ℕ)
    → resolve_wiki_mutation_path paths files (some f) allow validate ≡ ok path
    → (path.1 ≡ f) × ((paths.resolved f).0 ≡ paths.wiki_root) × ((paths.resolved f).1 ≡ f)
unfolding resolve_wiki_mutation_path
resolved_page paths files f allow validate path e =
    let (_, e1) = require-eq-ok (not (f == 0) && paths.is_trimmed f) value_error _ e in
    let (_, e2) = require-eq-ok (not (has_separator (paths.chars f))) value_error _ e1 in
    let (_, e3) =
      require-eq-ok
        (not (paths.is_absolute f) && paths.path_name f == f && not (is_dots (paths.chars f)))
        value_error _ e2 in
    let (root, e4) = require-eq-ok ((paths.resolved f).0 == paths.wiki_root) value_error _ e3 in
    let (name, e5) = require-eq-ok ((paths.resolved f).1 == f) value_error _ e4 in
    let (_, e6) =
      require-eq-ok (not (validate && not (allow && is_some (files f))) || paths.is_valid_name f)
        value_error _ e5 in
    let own : (paths.resolved f).1 ≡ f = ground (arith, name) in
    (ap (λ (q : ℕ × ℕ). q.1) (ok-injective (sym e6)) ∙ own, ground (arith, root), own)

resolved-ok :
    (paths : Paths) (files : Files) (f : Option ℕ) (allow validate : Bool) (path : ℕ × ℕ)
    → resolve_wiki_mutation_path paths files f allow validate ≡ ok path
    → ((paths.resolved path.1).0 ≡ paths.wiki_root) × ((paths.resolved path.1).1 ≡ path.1)
unfolding resolve_wiki_mutation_path
resolved-ok paths files none allow validate path e = cc
resolved-ok paths files (some f) allow validate path e =
    let (whole, here, same) = resolved_page paths files f allow validate path e in
    (rw whole here, rw whole same)

checked_update :
    (b : Bool) (check : Result MutationError (Unit {0})) {u : Unit {0}}
    → (if b then ok tt else check) ≡ ok u
    → is_delete (type_of b) ≡ false
    → check ≡ ok tt
checked_update true check e kept = cc
checked_update false check e kept = e

type_of-type : (b : Bool) → type_of b ≡ type_of (is_delete (type_of b))
type_of-type true = refl
type_of-type false = refl

prepare_one-HasPassed :
    (paths : Paths) (validators : Validators) (files : Files)
    (sha256 : MutationType → ℕ → ℕ → Expected → ValidationMode → ℕ) (mode : ValidationMode)
    (seen : List ℕ) (r : Request) (p : Prepared)
    → prepare_one paths validators files sha256 mode seen r ≡ ok p
    → HasPassed paths validators files mode seen p
unfolding prepare_one
prepare_one-HasPassed paths validators files sha256 mode seen r p e =
    let (_, e1) = require-eq-ok (not (is_not_a_text r.expected_version)) value_error _ e in
    let (path, found, e2) =
      >>=-eq-ok
        (resolve_wiki_mutation_path paths files r.filename (is_schema mode || r.is_delete) true) _
        e1 in
    let (new, e3) = require-eq-ok (not (contains seen path.1)) value_error _ e2 in
    let (done, checked, e4) =
      >>=-eq-ok
        (if r.is_delete then ok tt else check_content validators files mode path.1 r.content) _
        e3 in
    let (in_wiki, own_name) =
      resolved-ok paths files r.filename (is_schema mode || r.is_delete) true path found in
    subst (HasPassed paths validators files mode seen) (ok-injective e4) (record {
      new = ground (arith, new);
      in_wiki = in_wiki;
      own_name = own_name;
      known_type = type_of-type r.is_delete;
      accepted =
          checked_update r.is_delete (check_content validators files mode path.1 r.content) checked;
    })

prepare_each-HasPassed :
    (paths : Paths) (validators : Validators) (files : Files)
    (sha256 : MutationType → ℕ → ℕ → Expected → ValidationMode → ℕ) (mode : ValidationMode)
    (seen : List ℕ) (rs : List Request) (ps : List Prepared)
    → prepare_each paths validators files sha256 mode seen rs ≡ ok ps
    → IsKeyed (λ p. p.filename) ps × All (HasPassed paths validators files mode seen) ps
unfolding prepare_each
prepare_each-HasPassed paths validators files sha256 mode seen [] ps e =
    rw (ok-injective (sym e)) (tt, tt)
prepare_each-HasPassed paths validators files sha256 mode seen (r ∷ rs) ps e =
    let (p, first, e1) = >>=-eq-ok (prepare_one paths validators files sha256 mode seen r) _ e in
    let (qs, more, e2) =
      >>=-eq-ok (prepare_each paths validators files sha256 mode (p.filename ∷ seen) rs) _ e1 in
    let (keyed, passed) =
      prepare_each-HasPassed paths validators files sha256 mode (p.filename ∷ seen) rs qs more in
    let whole : ps ≡ p ∷ qs = ok-injective (sym e2) in
    rw whole (
      (
        All-imp (HasPassed paths validators files mode (p.filename ∷ seen))
            (λ q. q.filename ≢ p.filename) (λ q h same. ground (arith, h.new)) qs passed,
        keyed,
      ),
      (
        prepare_one-HasPassed paths validators files sha256 mode seen r p first,
        All-imp (HasPassed paths validators files mode (p.filename ∷ seen))
            (HasPassed paths validators files mode seen)
            (λ q h. record {
              new = ground (arith, h.new);
              in_wiki = h.in_wiki;
              own_name = h.own_name;
              known_type = h.known_type;
              accepted = h.accepted;
            })
            qs passed,
      ),
    )

-- The batch that `_prepare_mutations` returns is not empty, no two of its mutations have one file
-- name, each name resolves to the page of that very name in the wiki directory, each is an update or
-- a deletion, and every update carries a text that the validators of the mode accept in place of the
-- present file.
pub prepare_mutations-HasPassed :
    (paths : Paths) (validators : Validators) (files : Files)
    (sha256 : MutationType → ℕ → ℕ → Expected → ValidationMode → ℕ) (mode : ValidationMode)
    (requests : List Request) (ps : List Prepared)
    → prepare_mutations paths validators files sha256 mode requests ≡ ok ps
    → (is_empty ps ≡ false)
      × IsKeyed (λ p. p.filename) ps
      × All (HasPassed paths validators files mode []) ps
unfolding prepare_mutations
prepare_mutations-HasPassed paths validators files sha256 mode requests ps e =
    let (_, e1) = require-eq-ok (is_known_mode mode) value_error _ e in
    let (qs, each, e2) =
      >>=-eq-ok (prepare_each paths validators files sha256 mode [] requests) _ e1 in
    let (some_left, e3) = require-eq-ok (not (is_empty qs)) value_error _ e2 in
    let whole : ps ≡ qs = ok-injective (sym e3) in
    let (keyed, passed) =
      prepare_each-HasPassed paths validators files sha256 mode [] requests qs each in
    rw whole (ground (arith, some_left), keyed, passed)
