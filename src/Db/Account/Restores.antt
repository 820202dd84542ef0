-- ===== src/Db/Account/Restores.antt =====
-- A revert to a snapshot, whatever was called in between.
use py_evm.Prelude.{ℕ, ◌≡◌, refl, sym, ap, ◌∙◌, List, [], ◌∷◌}
use py_evm.Prelude.Exec.{>>-ok, ok}
use py_evm.Numeric.{Bytes}
use py_evm.Db.Database.{Database}
use py_evm.Db.Journal.{discard}
use py_evm.Db.Journal.Restores.{record_id, discard_restores, changes-wrapped_db}
use py_evm.Db.Account.{
  Account, AccountDb, Tries, snapshot, revert, record_changesets, discard_changesets, state_root,
  on_db, on_trie,
}
use mathlib.Core.Path.{subst}
use py_evm.Db.Account.Calls.{
  Call, storage_set, balance_set, nonce_set, storage_deleted, nonce_incremented, code_deleted,
  account_deleted, touched, code_set, snapshot_taken, reverted, committed, call, calls, Allowed,
  AllAllowed,
}
use py_evm.Db.Account.Traces.{
  Traced, Traced-same, Traced-trans, Tracing-delete_account, Tracing-set_nonce,
  Tracing-increment_nonce, Tracing-discards, Tracing-commits, same_root-set, Tracing-set_storage,
  Tracing-set_balance, Tracing-set_code, Tracing-delete_storage, Tracing-delete_code,
  Tracing-touch_account,
}

module _ {D T : Type 0} (db : Database D Bytes) (accounts : Database T Account)
    (tries : Tries D T) where
  -- From a snapshot of `start` with the ids `id` and `jd`.
  module _ (id jd : ℕ) (start : AccountDb D T) where
    Traced-call :
        (c : Call) (w : AccountDb D T)
        → Allowed db accounts tries id jd start c w
        → Traced db accounts tries id jd start w (call db accounts tries c w)
    unfolding snapshot record_changesets revert
    Traced-call (storage_set a slot value) w h =
        Tracing-set_storage db accounts tries id jd start a slot value w
    Traced-call (balance_set a n) w h = Tracing-set_balance db accounts tries id jd start a n w
    Traced-call (nonce_set a n) w h = Tracing-set_nonce db accounts tries id jd start a n w
    Traced-call (storage_deleted a) w h = Tracing-delete_storage db accounts tries id jd start a w
    Traced-call (nonce_incremented a) w h =
        Tracing-increment_nonce db accounts tries id jd start a w
    Traced-call (code_deleted a) w h = Tracing-delete_code db accounts tries id jd start a w
    Traced-call (account_deleted a) w h = Tracing-delete_account db accounts tries id jd start a w
    Traced-call (touched a) w h = Tracing-touch_account db accounts tries id jd start a w
    Traced-call (code_set a code) w h = Tracing-set_code db accounts tries id jd start a code w
    Traced-call (snapshot_taken i j) w (p, q) = record {
      on_codes = record_id i ∷ [];
      on_accounts = record_id j ∷ [];
      codes = refl;
      states = refl;
      spares_codes = (p, tt);
      spares_accounts = (q, tt);
    }
    Traced-call (reverted s) w (later, e) =
        subst
          (λ v.
            Traced db accounts tries id jd start w
              (discard_changesets db accounts tries s.db_changeset s.trie_changeset v).1)
          (sym (same_root-set db accounts tries id jd start s.state_root w e))
          (Tracing-discards db accounts tries id jd start s later w)
    Traced-call (committed f g s) w h = Tracing-commits db accounts tries id jd start f g s h w

    Traced-calls :
        (cs : List Call) (w : AccountDb D T)
        → AllAllowed db accounts tries id jd start cs w
        → Traced db accounts tries id jd start w (calls db accounts tries cs w)
    Traced-calls [] w h = Traced-same db accounts tries id jd start w
    Traced-calls (c ∷ cs) w (h, hs) =
        Traced-trans db accounts tries id jd start w (call db accounts tries c w)
          (calls db accounts tries cs (call db accounts tries c w)) (Traced-call c w h)
          (Traced-calls cs (call db accounts tries c w) hs)

  discard_both :
      (id jd : ℕ) (w e : AccountDb D T)
      → discard db id e.journaldb ≡ (ok tt, w.journaldb)
      → discard accounts jd e.journaltrie ≡ (ok tt, w.journaltrie)
      → discard_changesets db accounts tries id jd e ≡ (ok tt, w)
  unfolding discard_changesets
  discard_both id jd w e p q =
      >>-ok (on_db db accounts tries (discard db id))
        (on_trie db accounts tries (discard accounts jd)) e (ap (λ x. x.0) p)
      ∙ (λ i. ((q i).0, record { journaldb = (p i).1; journaltrie = (q i).1 }))

  -- If setting the state root that is set changes nothing, then a revert to a snapshot succeeds and gives
  -- back the whole account database as it was before the snapshot, whatever calls came in between, also
  -- when some raised, so long as the snapshots among them have other ids, and only such later snapshots
  -- were reverted, at the same state root, or committed.
  pub revert_restores :
      (id jd : ℕ) (w : AccountDb D T) (cs : List Call)
      → tries.set_root_hash (tries.root_hash w.journaltrie.wrapped_db) w.journaltrie.wrapped_db
        ≡ w.journaltrie.wrapped_db
      → AllAllowed db accounts tries id jd w cs (snapshot db accounts tries id jd w).1
      → revert db accounts tries
          (snapshot db accounts tries id jd w).0
          (calls db accounts tries cs (snapshot db accounts tries id jd w).1)
        ≡ (ok tt, w)
  unfolding revert snapshot state_root record_changesets
  revert_restores id jd w cs same allowed =
      let traced = Traced-calls id jd w cs (snapshot db accounts tries id jd w).1 allowed in
      let end = calls db accounts tries cs (snapshot db accounts tries id jd w).1 in
      let root = tries.root_hash w.journaltrie.wrapped_db in
      let wrapped : end.journaltrie.wrapped_db ≡ w.journaltrie.wrapped_db =
        ap (λ t. t.wrapped_db) traced.states
        ∙ changes-wrapped_db accounts jd w.journaltrie traced.on_accounts traced.spares_accounts in
      let kept : tries.set_root_hash root end.journaltrie.wrapped_db ≡ end.journaltrie.wrapped_db =
        ap (tries.set_root_hash root) wrapped ∙ same ∙ sym wrapped in
      ap (discard_changesets db accounts tries id jd)
        (same_root-set db accounts tries id jd w root end kept)
      ∙ discard_both id jd w end
          (ap (discard db id) traced.codes
            ∙ discard_restores db id w.journaldb traced.on_codes traced.spares_codes)
          (ap (discard accounts jd) traced.states
            ∙ discard_restores accounts jd w.journaltrie traced.on_accounts traced.spares_accounts)
