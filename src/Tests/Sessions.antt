-- ===== src/Tests/Sessions.antt =====
-- A pool whose transport cannot reach one authority, with sessions that are numbers.
use native.Mathlib.Decide.{ℕ_discrete}
use navar.Base.{
  ℕ, ◌+◌, ◌≤◌, ◌≡◌, ◌≢◌, refl, sym, ap, Bool-cases, inl, inr, ==_iff, ◌==◌, if◌then◌else◌, List, [],
  ◌∷◌, Option, none, some, ok, err,
}
use navar.Pool.Failures.{Failed, handle-Failed}
use navar.Pool.Once.{insertions, Served, run-new}
use navar.Pool.Reuse.{handle-run, handle_not_connected, handle_no_handshake}
use navar.Pool.{
  DashMap, Kinds, connected, shook_hands, Plugins, Pooled, new, send_through, handle, run,
}
use navar.Tests.Data.{Two, boxes}

abbrev pub find : {V : Type 0} → List (ℕ × V) → ℕ → Option V
find [] k = none
find ((j, v) ∷ m) k = if j == k then some v else find m k

pub find-insert_self :
    {V : Type 0} (m : List (ℕ × V)) (k : ℕ) (v : V) → find ((k, v) ∷ m) k ≡ some v
find-insert_self m k v = rw ((==_iff k k).1 refl)

pub find-insert_ne :
    {V : Type 0} (m : List (ℕ × V)) (j k : ℕ) (v : V) → j ≢ k → find ((k, v) ∷ m) j ≡ find m j
find-insert_ne m j k v ne = elim (Bool-cases (k == j)) [
  | inl t ↦ absurd (ne (sym ((==_iff k j).0 t)))
  | inr f ↦ rw f
]

abbrev pub map_of : (V : Type 0) → DashMap ℕ V
map_of V = record {
  Carrier = List (ℕ × V);
  empty = [];
  entry = find;
  insert = λ m k v. (k, v) ∷ m;
  same_key = ℕ_discrete;
  entry-empty = λ k. refl;
  entry-insert_self = find-insert_self;
  entry-insert_ne = find-insert_ne;
}

abbrev pub map : DashMap ℕ ℕ
map = map_of ℕ

abbrev pub kinds : Kinds
kinds = record {
  Uri = ℕ;
  Authority = ℕ;
  Conn = ℕ;
  Session = ℕ;
  Driver = ℕ;
  Req = ℕ;
  Parts = ℕ;
  Data = Two;
  BodyError = ℕ;
  Error = ℕ;
}

-- The request is its URI and its authority; 0 has no authority, 1 cannot be reached, and 2 refuses the
-- handshake.
abbrev pub plugins : Plugins kinds
plugins = record {
  uri = λ q. q;
  authority = λ u. if u == 0 then none else some u;
  connect = λ log u. if u == 1 then err 10 else ok u;
  handshake = λ log c. if c == 2 then err 20 else ok (c + 100, c);
  send_request = λ log s q. ok (record { parts = q; body = [] });
  missing_authority = 30;
}

abbrev pub keep : ℕ → ℕ
keep n = n

abbrev ran : List ℕ → Pooled kinds map
ran reqs = run boxes keep map plugins reqs (new boxes keep map plugins)

run_example :
    (insertions map plugins 3 (ran (3 ∷ 1 ∷ 3 ∷ 0 ∷ [])).log ≤ 1)
    × Served map plugins (ran (3 ∷ 1 ∷ 3 ∷ 0 ∷ [])).pool (ran (3 ∷ 1 ∷ 3 ∷ 0 ∷ [])).log
run_example = run-new boxes keep map plugins (3 ∷ 1 ∷ 3 ∷ 0 ∷ []) 3

abbrev held : Pooled kinds map
held = record { pool = (3, 103) ∷ []; log = [] }

handle-run_example :
    handle boxes keep map plugins 3 (run boxes keep map plugins (1 ∷ 4 ∷ []) held)
    ≡ send_through boxes keep map plugins 103 3 (run boxes keep map plugins (1 ∷ 4 ∷ []) held)
handle-run_example = handle-run boxes keep map plugins (1 ∷ 4 ∷ []) held 3 103 3 refl refl

connecting_fails :
    handle boxes keep map plugins 1 held ≡ (err 10, record held { log = connected 1 (err 10) ∷ [] })
connecting_fails = handle_not_connected boxes keep map plugins held 1 1 10 refl refl refl

handshake_fails :
    handle boxes keep map plugins 2 held
    ≡ (err 20, record held { log = shook_hands 2 (err 20) ∷ connected 2 (ok 2) ∷ [] })
handshake_fails = handle_no_handshake boxes keep map plugins held 2 2 2 20 refl refl refl refl

failed_run : (handle boxes keep map plugins 2 held).0 ≡ err 20
failed_run = ap (λ x. x.0) handshake_fails

handle-Failed_example : Failed map plugins 2 held 20 (handle boxes keep map plugins 2 held).1
handle-Failed_example = handle-Failed boxes keep map plugins 2 held 20 failed_run
