-- ===== src/Operations/Unique.antt =====
-- What `create` of users_operations has done to the database when it returns an operation.
use trash.Prelude.{
  ℕ, ◌≡◌, refl, ap, sym, ◌∙◌, inl, inr, Bool, Option, none, some, List, [], ◌∷◌, ◌++◌, arith,
}
use trash.Entity.{OperationRow, OperationData}
use trash.Runtime.{Runtime}
use trash.World.{Write, put_operation, Result, ok, err, World, Action, apply_writes}
use trash.Action.{call, catch_with, pure, ◌>>=◌, ◌>>◌, commit_transaction, rollback_transaction}
use trash.Database.{absent, present, find_operation, remove_operation, insert_operation}
use trash.Operations
use trash.Operations.{Options, of_user, add_hours}
use trash.Operations.Applied.{deletion}
use trash.Operations.Effects.{continue-ok, returned}
use trash.Operations.Atomic.{started, start-cases}
use trash.Users.{recover_own}

module _ ⦃rt : Runtime⦄ where
  module _ (o : Options) (user : ℕ) (content : OperationData) (w : World) where
    abbrev pub previous : Option OperationRow
    previous = rt.operations.find (of_user user o.kind) w.committed.operations

    -- The operation that `create` makes in `w`.
    abbrev pub created : OperationRow
    created = record {
      id = w.operation_seq;
      user_id = user;
      kind = o.kind;
      ttl = add_hours o.ttl_in_hours w.now;
      token = rt.uuid w.entropy;
      content = content;
      created_at = w.now;
      updated_at = w.now;
    }

  -- The counters and the clock are those of `w`.
  pub record SameCounters (w v : World) : Type 0 where
    pub committed : v.committed ≡ w.committed
    pub seq : v.operation_seq ≡ w.operation_seq
    pub now : v.now ≡ w.now
    pub entropy : v.entropy ≡ w.entropy

  close-ok :
      (o : Options) (user : ℕ) (v u : World)
      → Operations.close o user present v ≡ (ok tt, u)
      → v.pending ≡ some []
      → (u.pending
          ≡ some (deletion (rt.operations.find (of_user user o.kind) v.committed.operations)))
        × SameCounters v u
  unfolding Operations.close find_operation remove_operation
  close-ok o user v u e h = (ground arith, ground arith)

  pub insert-ok :
      (o : Options) (user : ℕ) (content : OperationData) (operation : OperationRow)
      (ws : List Write) (v u : World)
      → Operations.create_user_operation o user content present v ≡ (ok operation, u)
      → v.pending ≡ some ws
      → (operation ≡ created o user content v)
        × (u.pending ≡ some (ws ++ put_operation operation ∷ []))
        × (u.committed ≡ v.committed)
  unfolding Operations.create_user_operation insert_operation
  insert-ok o user content operation ws v u e h = (ground arith, ground arith, ground arith)

  pub commit-ok :
      (ws : List Write) (v u : World)
      → commit_transaction v ≡ (ok tt, u)
      → v.pending ≡ some ws
      → (u.committed ≡ apply_writes ws v.committed) × (u.pending ≡ none)
  unfolding commit_transaction call
  commit-ok ws v u e h = (ground arith, ground arith)

  pub created-same :
      (o : Options) (user : ℕ) (content : OperationData) (w v : World)
      → SameCounters w v
      → created o user content v ≡ created o user content w
  created-same o user content w v s = rw (s.seq, s.now, s.entropy)

  -- The `catch` never returns an operation.
  recover-none :
      (r : Result (Option OperationRow) × World) (operation : OperationRow) (w : World)
      → catch_with r (recover_own absent) ≡ (ok (some operation), w)
      → r ≡ (ok (some operation), w)
  unfolding rollback_transaction
  recover-none (ok a, u) operation w e = e
  recover-none (err x, u) operation w e = absurd (ground arith)

  module _ (o : Options) (user : ℕ) (content : OperationData) (w : World) where
    abbrev pub renewed : Action (Option OperationRow)
    renewed = do
      Operations.close o user present
      operation ← Operations.create_user_operation o user content present
      commit_transaction
      pure (some operation)

    abbrev pub Created : OperationRow → World → Type 0
    Created operation w' =
        (operation ≡ created o user content w)
        × (w'.committed
            ≡ apply_writes (deletion (previous o user content w) ++ put_operation operation ∷ [])
                w.committed)
        × (w'.pending ≡ none)

    pub renewed-some :
        (fs : List Bool) (operation : OperationRow) (w' : World)
        → renewed (started w fs) ≡ (ok (some operation), w')
        → Created operation w'
    renewed-some fs operation w' e =
        let v = started w fs in
        let (_, v1, closes, rest) = continue-ok (Operations.close o user present v) _ _ w' e in
        let (made, v2, inserts, rest') =
          continue-ok (Operations.create_user_operation o user content present v1) _ _ w' rest in
        let (_, v3, commits, ends) = continue-ok (commit_transaction v2) _ _ w' rest' in
        let (same, last) = returned ends in
        let (pending, counters) = close-ok o user v v1 closes refl in
        let ds = deletion (previous o user content w) in
        let (fresh, pending', kept) = insert-ok o user content made ds v1 v2 inserts pending in
        let (done, closed) = commit-ok (ds ++ put_operation made ∷ []) v2 v3 commits pending' in
        let here = created-same o user content v v1 counters in
        (
          sym same ∙ fresh ∙ here,
          ap (λ (x : World). x.committed) (sym last)
              ∙ done
              ∙ ap (apply_writes (ds ++ put_operation made ∷ [])) (kept ∙ counters.committed)
              ∙ ap (λ (r : OperationRow). apply_writes (ds ++ put_operation r ∷ []) w.committed)
                  same,
          ap (λ (x : World). x.pending) (sym last) ∙ closed,
        )

    -- If `create` with no query runner returns an operation, it is the new one for the user, and in
    -- one commit it is stored and the one of its kind before it is removed.
    pub create-some :
        (operation : OperationRow) (w' : World)
        → Operations.create o user content absent w ≡ (ok (some operation), w')
        → Created operation w'
    unfolding Operations.create
    create-some operation w' e = elim (start-cases w) [
      | inl (fs, fails) ↦ let stopped = rw fails at e in cc stopped
      | inr (fs, starts) ↦
          renewed-some fs operation w'
            (recover-none (renewed (started w fs)) operation w' (rw starts at e))
    ]
