-- ===== src/Refresh/Commands/History.antt =====
-- A stored run that has ended, as an invariant of the table of runs.
use x_bray.Base.{
  String, Bool, true, false, some, List, [], ◌∷◌, ◌++◌, ◌≡◌, arith, update_where, find_where,
  find_where-update, find_where-append,
}
use x_bray.Refresh.Models.{RefreshRunRecord, Db, is_running}
use x_bray.Refresh.Transaction.{Result, ok, err, ◌>>=◌, Tx, transaction, settle, is_run}

module _ (run_id : String) (run : RefreshRunRecord) where
  -- The run is stored, and it has ended.
  pub record HasEnded (runs : List RefreshRunRecord) : Type 0 where
    pub stored : find_where (is_run run_id) runs ≡ some run
    pub ended : is_running run.state ≡ false

  -- An update of running runs that keeps their ids leaves the row alone.
  pub HasEnded-update :
      (p : RefreshRunRecord → Bool) (f : RefreshRunRecord → RefreshRunRecord)
      (runs : List RefreshRunRecord)
      → ((row : RefreshRunRecord) → p row ≡ true → is_running row.state ≡ true)
      → ((row : RefreshRunRecord) → (f row).run_id ≡ row.run_id)
      → HasEnded runs
      → HasEnded (update_where p f runs)
  HasEnded-update p f runs hp hf h = record {
    stored = ground (
      arith,
      h.stored,
      h.ended,
      hp run,
      find_where-update (is_run run_id) p f runs (λ row. ground (arith, hf row)),
    );
    ended = h.ended;
  }

  pub HasEnded-append :
      (row : RefreshRunRecord) (runs : List RefreshRunRecord)
      → HasEnded runs
      → HasEnded (runs ++ row ∷ [])
  HasEnded-append row runs h = record {
    stored = find_where-append (is_run run_id) runs (row ∷ []) run h.stored;
    ended = h.ended;
  }

  abbrev pub StillEnded {ℓ} : {A : Type ℓ} → Result (A × Db) → Type 0
  StillEnded (ok (a, db)) = HasEnded db.runs
  StillEnded (err e) = Unit

  abbrev pub BodyStillEnded {ℓ} : {A : Type ℓ} → Db → Result (Tx A) → Type 0
  BodyStillEnded db (ok body) = StillEnded (body db)
  BodyStillEnded db (err e) = Unit

  settle-HasEnded {ℓ} :
      {A : Type ℓ} (db : Db) (r : Result (A × Db))
      → HasEnded db.runs
      → StillEnded r
      → HasEnded (settle db r).1.runs
  settle-HasEnded db (ok (a, db')) h b = b
  settle-HasEnded db (err e) h b = h

  transaction-HasEnded {ℓ} :
      {A : Type ℓ} (db : Db) (r : Result (Tx A))
      → HasEnded db.runs
      → BodyStillEnded db r
      → HasEnded (transaction r db).1.runs
  unfolding transaction
  transaction-HasEnded db (err e) h b = h
  transaction-HasEnded db (ok body) h b = settle-HasEnded db (body db) h b

  bind-BodyStillEnded {ℓ κ} :
      {A : Type ℓ} {B : Type κ} (db : Db) (m : Result B) (f : B → Tx A)
      → ((b : B) → StillEnded (f b db))
      → BodyStillEnded db (m >>= λ b. ok (f b))
  bind-BodyStillEnded db (ok b) f h = h b
  bind-BodyStillEnded db (err x) f h = tt

  -- A body for parsed arguments, as a transaction.
  pub parsed-HasEnded {ℓ κ} :
      {A : Type ℓ} {B : Type κ} (db : Db) (m : Result B) (f : B → Tx A)
      → HasEnded db.runs
      → ((b : B) → StillEnded (f b db))
      → HasEnded (transaction (m >>= λ b. ok (f b)) db).1.runs
  parsed-HasEnded db m f h b =
      transaction-HasEnded db (m >>= λ b. ok (f b)) h (bind-BodyStillEnded db m f b)
