-- ===== src/Tests/Shelf.antt =====
-- An API server that keeps its promises: it remembers every version of its one experiment and gives
-- each write a new one.
use entropyk.Base.{
  ℕ, suc, pos, String, ◌<>◌, str_eq, eq_iff, Bool-cases, List, [], ◌∷◌, ◌≡◌, ◌⊎◌, inl, inr, refl,
  ap, ◌∙◌, arith, if◌then◌else◌,
}
use entropyk.Go.{Result, ok, err, errorf}
use entropyk.Kube.{pod_running}
use entropyk.Api.Experiment.{ChaosExperiment}
use entropyk.Cluster.{Cluster}
use entropyk.Experiment.Server.{Store, Drifts, Accepts, LawfulServer}
use entropyk.Tests.Versions.{IsNew, Distinct, Among, Among-unique, new?}
use entropyk.Tests.Fixtures.{cluster, nightly, web, pod}
use entropyk.Tests.Controllers.{key}

abbrev pub version : ChaosExperiment → String
version e = e.metadata.resource_version

-- The versions, newest first, and how many of them came of a write of the status.
pub record Shelf : Type 0 where
  pub current : ChaosExperiment
  pub past : List ChaosExperiment
  pub distinct : Distinct version (current ∷ past)
  pub count : ℕ

unfoldable pub next_version : Shelf → String
next_version s = version s.current <> "'"

-- A write of `e`, if there is a version left for it.
unfoldable pub put :
    (e : ChaosExperiment) (n : ℕ) (s : Shelf)
    → IsNew version (next_version s) (s.current ∷ s.past) ⊎ Unit {0}
    → Result ChaosExperiment × Shelf
put e n s (inr full) = (err (errorf "no version left"), s)
put e n s (inl free) =
    let e' : ChaosExperiment = record e {
      metadata = record e.metadata { resource_version = next_version s };
    } in
    (
      ok e',
      record { current = e'; past = s.current ∷ s.past; distinct = (free, s.distinct); count = n },
    )

-- A write of `e` on behalf of a caller that holds the version `v`.
unfoldable pub put_at : String → ChaosExperiment → ℕ → Shelf → Result ChaosExperiment × Shelf
unfolding new?
put_at v e n s =
    if str_eq v (version s.current)
    then put e n s (new? version (next_version s) (s.current ∷ s.past))
    else (err (errorf "conflict"), s)

unfoldable pub with_status : ChaosExperiment → Shelf → ChaosExperiment
with_status e s = record s.current { status = e.status }

abbrev pub lawful : Cluster
lawful = record {
  State = Shelf;
  Selector = Unit {0};
  Location = Unit {0};
  Cron = ℕ;
  get_experiment = λ k s. (ok s.current, s);
  get_schedule = λ k s. (ok nightly, s);
  get_deployment = λ k s. (ok web, s);
  list_pods = λ ns selector s. (ok (pod "web-1" pod_running ∷ []), s);
  list_schedules = λ s. (ok (nightly ∷ []), s);
  update_experiment = λ e s. put_at (version e) (record e { status = s.current.status }) s.count s;
  update_experiment_status = λ e s. put_at (version e) (with_status e s) (suc s.count) s;
  update_schedule_status = λ e s. (ok e, s);
  create_experiment = λ e s. (err (errorf "exists"), s);
  delete_pod = λ p s. (ok tt, s);
  now = λ s. (pos 9_000_000_000, s);
  shuffle = λ n s. ([], s);
  label_selector_as_selector = cluster.label_selector_as_selector;
  set_controller_reference = cluster.set_controller_reference;
  load_location = cluster.load_location;
  parse_cron = cluster.parse_cron;
  cron_next = cluster.cron_next;
  sprintf = cluster.sprintf;
}

abbrev pub shelves : Store Shelf
shelves = record {
  stored = λ s. s.current;
  Seen = λ s e. Among e (s.current ∷ s.past);
  writes = λ s. s.count;
}

pub still : (s : Shelf) → Drifts shelves s s
still s = record {
  alike = (refl, refl);
  count = refl;
  news = λ e seen. inl seen;
  kept = λ e seen. seen;
}

put-Drifts :
    (e : ChaosExperiment) (s : Shelf)
    (free : IsNew version (next_version s) (s.current ∷ s.past) ⊎ Unit {0})
    → e.spec ≡ s.current.spec
    → e.status ≡ s.current.status
    → Drifts shelves s (put e s.count s free).1
unfolding put
put-Drifts e s (inr full) same_spec same_status = still s
put-Drifts e s (inl free) same_spec same_status = record {
  alike = (same_spec, same_status);
  count = refl;
  news = λ x seen. elim seen [
    | inl new ↦ inr (ap (λ o. o.spec) new ∙ same_spec, ap (λ o. o.status) new ∙ same_status)
    | inr old ↦ inl old
  ];
  kept = λ x seen. inr seen;
}

put-Accepts :
    (next : ChaosExperiment) (s : Shelf)
    (free : IsNew version (next_version s) (s.current ∷ s.past) ⊎ Unit {0})
    → version next ≡ version s.current
    → Drifts shelves s (put (with_status next s) (suc s.count) s free).1
      ⊎ Accepts shelves next s (put (with_status next s) (suc s.count) s free).1
unfolding put with_status
put-Accepts next s (inr full) match = inl (still s)
put-Accepts next s (inl free) match = inr (record {
  current = match;
  same_spec = refl;
  new_status = refl;
  count = refl;
  news = λ x seen. elim seen [
    | inl new ↦ inr (inr (ap (λ o. o.spec) new, ap (λ o. o.status) new))
    | inr old ↦ inl old
  ];
  kept = λ x seen. inr seen;
})

put-answered :
    (e r : ChaosExperiment) (n : ℕ) (s : Shelf)
    (free : IsNew version (next_version s) (s.current ∷ s.past) ⊎ Unit {0})
    → (put e n s free).0 ≡ ok r
    → r.spec ≡ (put e n s free).1.current.spec
unfolding put
put-answered e r n s (inr full) got = absurd cc
put-answered e r n s (inl free) got = ground arith

pub updated :
    (e : ChaosExperiment) (s : Shelf)
    → e.spec ≡ s.current.spec
    → Drifts shelves s (lawful.update_experiment e s).1
unfolding put_at
updated e s same = elim (Bool-cases (str_eq (version e) (version s.current))) [
  | inl match ↦ rw match (put-Drifts (record e { status = s.current.status }) s _ same refl)
  | inr other ↦ rw other (still s)
]

pub written :
    (next : ChaosExperiment) (s : Shelf)
    → Drifts shelves s (lawful.update_experiment_status next s).1
      ⊎ Accepts shelves next s (lawful.update_experiment_status next s).1
unfolding put_at
written next s = elim (Bool-cases (str_eq (version next) (version s.current))) [
  | inl match ↦
      rw match (put-Accepts next s _ ((eq_iff (version next) (version s.current)).0 match))
  | inr other ↦ rw other (inl (still s))
]

pub answered :
    (next e : ChaosExperiment) (s : Shelf)
    → (lawful.update_experiment_status next s).0 ≡ ok e
    → e.spec ≡ (lawful.update_experiment_status next s).1.current.spec
unfolding put_at
answered next e s = elim (Bool-cases (str_eq (version next) (version s.current))) [
  | inl match ↦ rw match (put-answered (with_status next s) e (suc s.count) s _)
  | inr other ↦ rw other λ got. absurd cc
]

pub read :
    (s : Shelf) (e : ChaosExperiment) → (lawful.get_experiment key s).0 ≡ ok e → e ≡ s.current
read s e found = ground arith

abbrev pub shelf_server : LawfulServer lawful key
shelf_server = record {
  store = shelves;
  latest = λ s. inl refl;
  unique = λ s e e' seen seen' match.
      Among-unique version e e' (s.current ∷ s.past) s.distinct seen seen' match;
  read = λ s e found. inl (read s e found);
  reading = λ s. still s;
  deployment = λ k s. still s;
  pods = λ namespace selector s. still s;
  time = λ s. still s;
  shuffled = λ n s. still s;
  deleted = λ pod s. still s;
  updated = updated;
  written = written;
  answered = answered;
}
