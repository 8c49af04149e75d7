-- ===== src/Migrations/Order.antt =====
-- What a run of the migrations guarantees, if it finishes and if it does not.
use mathlib.Core.Path.{ap₂}
use mathlib.Core.List.{append-nil, append_assoc}
use fraud_ml_platform.Shared.{
  ℕ, suc, String, ◌≡◌, refl, sym, ap, ◌∙◌, subst, ◌≢◌, ◌⊎◌, inl, inr, true, false, not, ◌||◌,
  Option, some, List, [], ◌∷◌, ◌++◌, arith, str_eq_iff, Bool-cases, Option-cases, length, take,
  keep_if, All, Exception, Result, ok, raise, Result-cases,
}
use fraud_ml_platform.Migrations.Apply.{main, migrations, Server, is_recorded, apply_one, apply_all}

is_recorded-append :
    (f : String) (xs ys : List String)
    → is_recorded f (xs ++ ys) ≡ is_recorded f xs || is_recorded f ys
is_recorded-append f [] ys = refl
is_recorded-append f (x ∷ xs) ys = ground (arith, is_recorded-append f xs ys)

module _ {S Sql : Type 0} (read_text : String → Option Sql) (execute : Sql → S → Result S) where
  apply_one-skips :
      (f : String) (db : Server S)
      → is_recorded f db.recorded ≡ true
      → apply_one read_text execute f db ≡ ok db
  unfolding apply_one
  apply_one-skips f db h = ground (arith, h)

  apply_one-cases :
      (f : String) (db db' : Server S)
      → apply_one read_text execute f db ≡ ok db'
      → ((is_recorded f db.recorded ≡ true) × (db' ≡ db))
        ⊎ ((is_recorded f db.recorded ≡ false)
            × (db'.recorded ≡ db.recorded ++ f ∷ [])
            × ((sql : Sql) × (read_text f ≡ some sql) × (execute sql db.schema ≡ ok db'.schema)))
  unfolding apply_one
  apply_one-cases f db db' h = elim (Bool-cases (is_recorded f db.recorded)) [
    | inl old ↦ inl (old, ground (arith, old))
    | inr new ↦ elim (Option-cases (read_text f)) [
      | inl missing ↦ ground (arith, new, missing)
      | inr (sql, found) ↦ elim (Result-cases (execute sql db.schema)) [
        | inl (s, done) ↦
            inr (
              new,
              ground (arith, new, found, done),
              (sql, found, ground (arith, new, found, done)),
            )
        | inr (x, e) ↦ ground (arith, new, found, e)
      ]
    ]
  ]

  apply_all-ok :
      (f : String) (fs : List String) (db db' : Server S)
      → apply_one read_text execute f db ≡ ok db'
      → apply_all read_text execute (f ∷ fs) db ≡ apply_all read_text execute fs db'
  unfolding apply_all
  apply_all-ok f fs db db' e = ground (arith, e)

  apply_all-raise :
      (f : String) (fs : List String) (db : Server S) {x : Exception}
      → apply_one read_text execute f db ≡ raise x
      → apply_all read_text execute (f ∷ fs) db ≡ (raise x, db)
  unfolding apply_all
  apply_all-raise f fs db e = ground (arith, e)

  -- A step records its file and forgets none.
  apply_one-records :
      (f g : String) (db db' : Server S)
      → apply_one read_text execute f db ≡ ok db'
      → (is_recorded f db'.recorded ≡ true)
        × (is_recorded g db.recorded ≡ true → is_recorded g db'.recorded ≡ true)
  apply_one-records f g db db' h = elim (apply_one-cases f db db' h) [
    | inl (old, e) ↦ rw e (old, λ r. r)
    | inr (new, e, _) ↦
        let at_f = is_recorded-append f db.recorded (f ∷ []) in
        let at_g = is_recorded-append g db.recorded (f ∷ []) in
        (
          ground (arith, ap (is_recorded f) e, at_f, str_eq_iff f f, new),
          λ r. ground (arith, ap (is_recorded g) e, at_g, r),
        )
  ]

  apply_all-keeps :
      (fs : List String) (g : String) (db : Server S)
      → is_recorded g db.recorded ≡ true
      → is_recorded g (apply_all read_text execute fs db).1.recorded ≡ true
  apply_all-keeps [] g db h = unfold apply_all in h
  apply_all-keeps (f ∷ fs) g db h = elim (Result-cases (apply_one read_text execute f db)) [
    | inl (db', e) ↦
        rw (apply_all-ok f fs db db' e)
          (apply_all-keeps fs g db' ((apply_one-records f g db db' e).1 h))
    | inr (x, e) ↦ rw (apply_all-raise f fs db e) h
  ]

  abbrev pub IsApplied : List String → Server S → Type 0
  IsApplied fs db = All (λ f. is_recorded f db.recorded ≡ true) fs

  -- A run that finishes has recorded every file of its list.
  pub apply_all_complete :
      (fs : List String) (db : Server S)
      → (apply_all read_text execute fs db).0 ≡ ok tt
      → IsApplied fs (apply_all read_text execute fs db).1
  apply_all_complete [] db h = tt
  apply_all_complete (f ∷ fs) db h = elim (Result-cases (apply_one read_text execute f db)) [
    | inl (db', e) ↦
        let next = apply_all-ok f fs db db' e in
        subst (λ (r : Result (Unit {0}) × Server S). IsApplied (f ∷ fs) r.1) (sym next)
          (
            apply_all-keeps fs f db' ((apply_one-records f f db db' e).0),
            apply_all_complete fs db' (rw next at h),
          )
    | inr (x, e) ↦
        cc (ap (λ (r : Result (Unit {0}) × Server S). r.0) (apply_all-raise f fs db e), h)
  ]

  -- Where all files are recorded, a run changes nothing, and reads and executes nothing.
  apply_all-idle :
      (fs : List String) (db : Server S)
      → IsApplied fs db
      → apply_all read_text execute fs db ≡ (ok tt, db)
  apply_all-idle [] db h = unfold apply_all in refl
  apply_all-idle (f ∷ fs) db h =
      apply_all-ok f fs db db (apply_one-skips f db h.0) ∙ apply_all-idle fs db h.1

abbrev pub AreDistinct : List String → Type 0
AreDistinct [] = Unit
AreDistinct (f ∷ fs) = All (λ g. g ≢ f) fs × AreDistinct fs

-- The files that are not recorded, in the order of the list.
abbrev pub pending : List String → List String → List String
pending recorded = keep_if (λ f. not (is_recorded f recorded))

pending-snoc :
    (f : String) (recorded fs : List String)
    → All (λ g. g ≢ f) fs
    → pending (recorded ++ f ∷ []) fs ≡ pending recorded fs
pending-snoc f recorded [] h = refl
pending-snoc f recorded (g ∷ fs) h = ground (
  arith,
  h.0,
  is_recorded-append g recorded (f ∷ []),
  str_eq_iff f g,
  pending-snoc f recorded fs h.1,
)

module _ {S Sql : Type 0} (read_text : String → Option Sql) (execute : Sql → S → Result S) where
  -- However a run ends, it has appended to the record the first of the pending files, in the order of
  -- the list; all of them, if it finished.
  pub apply_all-prefix :
      (fs : List String) (db : Server S)
      → AreDistinct fs
      → (k : ℕ) × ((apply_all read_text execute fs db).1.recorded
          ≡ db.recorded ++ take k (pending db.recorded fs))
        × ((apply_all read_text execute fs db).0 ≡ ok tt → k ≡ length (pending db.recorded fs))
  apply_all-prefix [] db d = (0, unfold apply_all in sym (append-nil db.recorded), λ _. refl)
  apply_all-prefix (f ∷ fs) db d = elim (Result-cases (apply_one read_text execute f db)) [
    | inr (x, e) ↦
        let stop = apply_all-raise read_text execute f fs db e in
        (
          0,
          ap (λ (r : Result (Unit {0}) × Server S). r.1.recorded) stop
              ∙ sym (append-nil db.recorded),
          λ h. cc (ap (λ (r : Result (Unit {0}) × Server S). r.0) stop, h),
        )
    | inl (db', e) ↦
        let next = apply_all-ok read_text execute f fs db db' e in
        let (k, rows, all) = apply_all-prefix fs db' d.1 in
        let log = ap (λ (r : Result (Unit {0}) × Server S). r.1.recorded) next in
        let same_end = ap (λ (r : Result (Unit {0}) × Server S). r.0) next in
        elim (apply_one-cases read_text execute f db db' e) [
          | inl (old, same) ↦
              let here : pending db.recorded (f ∷ fs) ≡ pending db.recorded fs =
                ground (arith, old) in
              let kept = ap (λ (d : Server S). d.recorded) same in
              let pend = ap (λ r. pending r fs) kept ∙ sym here in
              (
                k,
                log ∙ rows ∙ ap₂ (λ r p. r ++ take k p) kept pend,
                λ h. all (sym same_end ∙ h) ∙ ap length pend,
              )
          | inr (new, grown, _) ↦
              let here : pending db.recorded (f ∷ fs) ≡ f ∷ pending db.recorded fs =
                ground (arith, new) in
              let pend = ap (λ r. pending r fs) grown ∙ pending-snoc f db.recorded fs d.0 in
              (
                suc k,
                log
                    ∙ rows
                    ∙ ap₂ (λ r p. r ++ take k p) grown pend
                    ∙ append_assoc db.recorded (f ∷ []) (take k (pending db.recorded fs))
                    ∙ ap (λ p. db.recorded ++ take (suc k) p) (sym here),
                λ h. ap suc (all (sym same_end ∙ h) ∙ ap length pend) ∙ ap length (sym here),
              )
        ]
  ]

  -- After a run that finishes, a second run finishes and changes nothing, even if the files have gone
  -- and the server accepts no statement.
  pub main-again :
      (read_text' : String → Option Sql) (execute' : Sql → S → Result S) (db : Server S)
      → (main read_text execute true db).0 ≡ ok tt
      → main read_text' execute' true (main read_text execute true db).1
        ≡ (ok tt, (main read_text execute true db).1)
  unfolding main
  main-again read_text' execute' db h =
      apply_all-idle read_text' execute' migrations _
        (apply_all_complete read_text execute migrations db h)
