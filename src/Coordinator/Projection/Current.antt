-- ===== src/Coordinator/Projection/Current.antt =====
-- vector_lake/mutation_coordinator.py, `materialize_markdown_projection`: which texts reach the files.
use vector_lake.Prelude.{
  ℕ, ◌≡◌, ◌≢◌, Bool, true, false, ◌&&◌, ◌||◌, not, Option, none, some, List, [], ◌∷◌, arith, ==_iff,
  if◌then◌else◌, refl, sym, ◌∙◌, ap, subst, is_some, &&-eq-true,
}
use mathlib.Core.Option.{some-injective}
use vector_lake.Prelude.Sql.{find_key-key}
use vector_lake.Prelude.Result.{ok, require-eq-ok, >>=-eq-ok, ok-injective}
use vector_lake.Outbox.{
  OutboxClaim, ValidationMode, Intent, MutationType, update, delete, other_type, claim_lost,
  current_mutation_intent, validate_mutation_claim, is_delete,
}
use vector_lake.Outbox.Claims.{validate_mutation_claim-ok, current_mutation_intent-ok}
use vector_lake.Outbox.Pages.{same_type-eq, opt_eq-eq}
use vector_lake.Outbox.Enqueue.{is_known_mode}
use vector_lake.Coordinator.{
  value_error, version_conflict, outbox_error, Paths, Files, Validators, resolve_wiki_mutation_path,
}
use vector_lake.Coordinator.Commit.Enqueued.{from_outbox-ok}
use vector_lake.Coordinator.Locks.{projection_locks}
use vector_lake.Coordinator.Prepare.{is_full, is_schema, resolved_page}
use vector_lake.Coordinator.Projection.{
  Target, is_intent_of, is_eligible, is_outdated, intent_of, key_test, require_projection_intent,
  put_file, atomic_write_text, payload_or_file, write_projection, materialize_markdown_projection,
}

-- The intent is the newest of its page, what is materialized is what it says, and it is bound to the
-- version that the page has.
pub record IsCurrent (version_of : ℕ → ℕ) (t : Target) (intents : List Intent) : Type 0 where
  pub row : Intent
  pub newest : current_mutation_intent row.id intents ≡ ok row
  pub id : row.id ≡ t.outbox_id
  pub filename : row.filename ≡ t.filename
  pub mutation_type : row.mutation_type ≡ t.mutation_type
  pub payload_text : row.payload_text ≡ t.payload_text
  pub unversioned : row.base_version ≡ none → version_of t.filename ≡ 0
  pub bound : (v : ℕ) → row.base_version ≡ some v → version_of t.filename ≡ v
  pub gone : t.mutation_type ≡ delete → version_of t.filename ≡ 0

in_step-ok :
    (base : Option ℕ) (t : MutationType) (current : ℕ)
    → is_outdated base t current ≡ false
    → (base ≡ none → current ≡ 0)
      × ((v : ℕ) → base ≡ some v → current ≡ v)
      × (t ≡ delete → current ≡ 0)
in_step-ok none t current h = (λ _. ground arith, λ v e. cc, λ _. ground arith)
in_step-ok (some b) t current h = (
  λ e. cc,
  λ v e.
      let same : b ≡ v = some-injective b v e in
      let matched : b ≡ current = ground arith in sym matched ∙ same,
  λ d. let deleted : is_delete t ≡ true = rw d refl in ground arith,
)

own_id :
    (i : ℕ) (intents : List Intent) (row : Intent)
    → current_mutation_intent i intents ≡ ok row
    → current_mutation_intent row.id intents ≡ ok row
own_id i intents row e =
    let (found, _, _) = current_mutation_intent-ok i intents row e in
    subst (λ (k : ℕ). current_mutation_intent k intents ≡ ok row)
      (sym (find_key-key (λ (x : Intent). x.id) i intents found)) e

claimed-current :
    (claim : Option OutboxClaim) (i now : ℕ) (intents : List Intent) (row : Intent)
    → elim claim [
      | none ↦ current_mutation_intent i intents
      | some c ↦ validate_mutation_claim c now intents
    ]
      ≡ ok row
    → current_mutation_intent row.id intents ≡ ok row
claimed-current none i now intents row e = own_id i intents row e
claimed-current (some c) i now intents row e =
    let (j, _, current, _, _) = validate_mutation_claim-ok c now intents row e in
    own_id j intents row current

pub require_projection_intent-IsCurrent :
    (is_source_metadata : ℕ → Bool) (version_of : ℕ → ℕ) (t : Target) (now : ℕ)
    (intents : List Intent) (row : Intent)
    → require_projection_intent is_source_metadata version_of t now intents ≡ ok row
    → IsCurrent version_of t intents
unfolding require_projection_intent
require_projection_intent-IsCurrent is_source_metadata version_of t now intents row e =
    let (x, first, e1) = >>=-eq-ok (intent_of t now intents) _ e in
    let (_, e2) =
      require-eq-ok (not (key_test is_source_metadata x.idempotency_key)) version_conflict _ e1 in
    let (named, e3) = require-eq-ok (is_intent_of t x) (outbox_error claim_lost) _ e2 in
    let (_, e4) = require-eq-ok (is_eligible x.status) (outbox_error claim_lost) _ e3 in
    let (bound, e5) =
      require-eq-ok (not (is_outdated x.base_version t.mutation_type (version_of t.filename)))
        version_conflict _ e4 in
    let (up_to_text, _) = &&-eq-true named in
    let (up_to_type, d) = &&-eq-true up_to_text in
    let (up_to_name, c) = &&-eq-true up_to_type in
    let (a, b) = &&-eq-true up_to_name in
    let in_step =
      in_step-ok x.base_version t.mutation_type (version_of t.filename) (ground (arith, bound)) in
    record {
      row = x;
      newest = claimed-current t.claim t.outbox_id now intents x (from_outbox-ok _ first);
      id = (==_iff x.id t.outbox_id).0 a;
      filename = (==_iff x.filename t.filename).0 b;
      mutation_type = same_type-eq x.mutation_type t.mutation_type c;
      payload_text = opt_eq-eq x.payload_text t.payload_text d;
      unversioned = in_step.0;
      bound = in_step.1;
      gone = in_step.2;
    }

-- The files after a projection: the target's file holds its text, or none after a deletion, and the
-- other files are as before. An update without a text keeps the file that there is.
pub record IsProjected (t : Target) (files files' : Files) : Type 0 where
  pub updated :
      t.mutation_type ≡ update
      → (text : ℕ) → t.payload_text ≡ some text
      → files' t.filename ≡ some text
  pub kept : t.mutation_type ≡ update → t.payload_text ≡ none → files' t.filename ≡ files t.filename
  pub deleted : t.mutation_type ≡ delete → files' t.filename ≡ none
  pub others : (g : ℕ) → g ≢ t.filename → files' g ≡ files g

put_file-own : (f : ℕ) (content : Option ℕ) (files : Files) → put_file f content files f ≡ content
put_file-own f content files = ground arith

atomic_write_text-ok :
    (paths : Paths) (validators : Validators) (files files' : Files) (f content : ℕ)
    (mode : ValidationMode)
    → atomic_write_text paths validators files f content mode ≡ ok files'
    → files' ≡ put_file f (some content) files
unfolding atomic_write_text
atomic_write_text-ok paths validators files files' f content mode e =
    let (_, e1) = require-eq-ok (is_known_mode mode) value_error _ e in
    let is_new = is_full mode && not (is_some (files f)) in
    let (_, _, e2) =
      >>=-eq-ok
        (if not (paths.is_wiki_page f)
          then ok tt
          else if is_full mode
          then validators.verify_asset content f is_new
          else validators.validate_schema content f is_new)
        _ e1 in
    ok-injective (sym e2)

write_projection-update :
    (paths : Paths) (validators : Validators) (files files' : Files) (f : ℕ) (payload : Option ℕ)
    (mode : ValidationMode)
    → write_projection paths validators files f payload mode update ≡ ok files'
    → (text : ℕ) × (payload_or_file payload (files f) ≡ ok text)
      × (files' ≡ put_file f (some text) files)
unfolding write_projection
write_projection-update paths validators files files' f payload mode e =
    let (text, chosen, e1) = >>=-eq-ok (payload_or_file payload (files f)) _ e in
    (text, chosen, atomic_write_text-ok paths validators files files' f text mode e1)

payload_or_file-file :
    (file : Option ℕ) (text : ℕ) → payload_or_file none file ≡ ok text → file ≡ some text
payload_or_file-file none text e = cc
payload_or_file-file (some a) text e = ap some (ok-injective e)

write_projection-IsProjected :
    (paths : Paths) (validators : Validators) (t : Target) (files files' : Files)
    (type : MutationType)
    → t.mutation_type ≡ type
    → write_projection paths validators files t.filename t.payload_text t.validation_mode type
      ≡ ok files'
    → IsProjected t files files'
unfolding write_projection
write_projection-IsProjected paths validators t files files' update same e =
    let (text, chosen, whole) =
      write_projection-update paths validators files files' t.filename t.payload_text
        t.validation_mode e in
    record {
      updated = λ _ given is_given.
          let chosen' = rw is_given at chosen in
          rw whole
            (put_file-own t.filename (some text) files ∙ ap some (ok-injective (sym chosen')));
      kept = λ _ missing.
          let chosen' = rw missing at chosen in
          rw whole (
            put_file-own t.filename (some text) files
            ∙ sym (payload_or_file-file (files t.filename) text chosen'));
      deleted = λ d. cc (same, d);
      others = λ g apart. rw whole (ground arith);
    }
write_projection-IsProjected paths validators t files files' delete same e =
    let whole : files' ≡ put_file t.filename none files = ok-injective (sym e) in
    record {
      updated = λ u _ _. cc (same, u);
      kept = λ u _. cc (same, u);
      deleted = λ _. rw whole (put_file-own t.filename none files);
      others = λ g apart. rw whole (ground arith);
    }
write_projection-IsProjected paths validators t files files' (other_type n) same e = cc

-- A projection that succeeds is that of an intent which is the newest of its page, which says what
-- is written, and whose version is the one that the page has, an unversioned intent only for a page
-- that is not there; it leaves in the page's file exactly that text, or no file for a deletion, and
-- changes no other file. For an update without a text the file stays as it is.
pub materialize_markdown_projection-IsCurrent :
    (paths waited : Paths) (validators : Validators) (is_source_metadata : ℕ → Bool)
    (in_transaction : Bool) (in_time : ℕ → Bool) (held : List ℕ) (version_of : ℕ → ℕ) (t : Target)
    (now : ℕ) (intents : List Intent) (files files' : Files)
    → materialize_markdown_projection paths waited validators is_source_metadata in_transaction
        in_time held version_of t now intents files
      ≡ ok files'
    → IsCurrent version_of t intents × IsProjected t files files'
unfolding materialize_markdown_projection
materialize_markdown_projection-IsCurrent paths waited validators is_source_metadata in_transaction
      in_time held version_of t now intents files files' e =
    let (_, _, e1) =
      >>=-eq-ok (projection_locks paths waited files in_transaction in_time held (t.filename ∷ []))
        _ e in
    let (row, allowed, e2) =
      >>=-eq-ok (require_projection_intent is_source_metadata version_of t now intents) _ e1 in
    let (path, resolved, e3) =
      >>=-eq-ok
        (resolve_wiki_mutation_path paths files (some t.filename)
          (is_schema t.validation_mode || is_delete t.mutation_type)
          (not (is_delete t.mutation_type)))
        _ e2 in
    let (own, _, _) = resolved_page paths files t.filename _ _ path resolved in
    (
      require_projection_intent-IsCurrent is_source_metadata version_of t now intents row allowed,
      write_projection-IsProjected paths validators t files files' t.mutation_type refl (
          subst
            (λ (f : ℕ).
              write_projection paths validators files f t.payload_text t.validation_mode
                t.mutation_type
              ≡ ok files')
            own e3),
    )
