-- ===== src/BlockMgr/Lookups.antt =====
-- src/blockmgr.cc: what `findSaveStore` leaves behind: an open handle on every account that was found.
use omicro.Base.{
  Bool-cases, inl, inr, ◌≡◌, ◌∙◌, refl, ap, true, if◌then◌else◌, Bytes, eqb, eqb_iff, eqb_refl,
  c_str, Option, none, some,
}
use omicro.Base.Dict
use omicro.Base.Dict.{find-emplace, or_else}
use omicro.Trxn.{Reals}
use omicro.BlockMgr.{
  Cabinet, BlockMgr, System, find_save_store, fresh_store, store_get, get_acct_store_file_path,
}

module _ (r : Reals) (sys : System r) (c : Cabinet) where
  -- The user's handle is kept, and the record stands under it.
  abbrev pub IsFound : BlockMgr c → Bytes → c.Handle → Bytes → Type 0
  IsFound s u h rec =
      (Dict.find u s.acct_store_map ≡ some h) × (c.get_record s.db h (c_str u) ≡ some rec)

  pub find-emplace_same :
      (u : Bytes) (h : c.Handle) (m : Dict.Dict c.Handle)
      → Dict.find u m ≡ none
      → Dict.find u (Dict.emplace u h m) ≡ some h
  find-emplace_same u h m absent =
      find-emplace u u h m
      ∙ ap (λ b. if b then some (or_else (Dict.find u m) h) else Dict.find u m) (eqb_refl u)
      ∙ ap (λ o. some (or_else o h)) absent

  -- What a lookup gives, where it finds something.
  abbrev pub GivesFound : Bytes → BlockMgr c × Option (c.Handle × Bytes) → Type 0
  GivesFound u (s, none) = Unit {0}
  GivesFound u (s, some (h, rec)) = IsFound s u h rec

  abbrev pub opened : BlockMgr c → Bytes → c.Db × c.Handle
  opened s u = c.open_file s.db (get_acct_store_file_path r sys c u)

  fresh_store-IsFound :
      (s : BlockMgr c) (u : Bytes)
      → Dict.find u s.acct_store_map ≡ none
      → GivesFound u (fresh_store r sys c s u)
  unfolding fresh_store store_get
  fresh_store-IsFound s u absent =
      branch (c.get_record (opened s u).0 (opened s u).1 (c_str u)) refl
        (find-emplace_same u (opened s u).1 s.acct_store_map absent)
    where
      branch :
          (o : Option Bytes)
          → c.get_record (opened s u).0 (opened s u).1 (c_str u) ≡ o
          → Dict.find u (Dict.emplace u (opened s u).1 s.acct_store_map) ≡ some (opened s u).1
          → GivesFound u (elim o [
            | some rec ↦ (
              record s {
                db = (opened s u).0;
                acct_store_map = Dict.emplace u (opened s u).1 s.acct_store_map;
              },
              some ((opened s u).1, rec),
            )
            | none ↦ (record s { db = c.close_file (opened s u).0 (opened s u).1 }, none)
          ])
      branch (some rec) e kept = (kept, e)
      branch none e kept = tt

  pub find_save_store-IsFound :
      (s : BlockMgr c) (u : Bytes) → GivesFound u (find_save_store r sys c s u)
  unfolding find_save_store store_get
  find_save_store-IsFound s u =
      branch (Dict.find u s.acct_store_map) refl (λ absent. fresh_store-IsFound s u absent)
    where
      known :
          (h : c.Handle) (o : Option Bytes)
          → c.get_record s.db h (c_str u) ≡ o
          → Dict.find u s.acct_store_map ≡ some h
          → GivesFound u (elim o [ none ↦ (s, none) | some rec ↦ (s, some (h, rec)) ])
      known h none e kept = tt
      known h (some rec) e kept = (kept, e)

      branch :
          (o : Option c.Handle)
          → Dict.find u s.acct_store_map ≡ o
          → (Dict.find u s.acct_store_map ≡ none → GivesFound u (fresh_store r sys c s u))
          → GivesFound u (elim o [
            | none ↦ fresh_store r sys c s u
            | some h ↦ elim (c.get_record s.db h (c_str u)) [
              | none ↦ (s, none)
              | some rec ↦ (s, some (h, rec))
            ]
          ])
      branch none e fresh = fresh e
      branch (some h) e fresh = known h (c.get_record s.db h (c_str u)) refl e

  -- The user's handle is kept and open.
  abbrev pub IsKept : BlockMgr c → Bytes → c.Handle → Type 0
  IsKept s u h = (Dict.find u s.acct_store_map ≡ some h) × (c.is_open s.db h ≡ true)

  abbrev pub GivesKept : Bytes → c.Handle → BlockMgr c × Option (c.Handle × Bytes) → Type 0
  GivesKept u h (s, none) = Unit {0}
  GivesKept u h (s, some found) = IsKept s u h

  find-emplace_kept :
      (u v : Bytes) (h g : c.Handle) (m : Dict.Dict c.Handle)
      → Dict.find u m ≡ some h
      → Dict.find u (Dict.emplace v g m) ≡ some h
  find-emplace_kept u v h g m here = find-emplace v u g m ∙ elim (Bool-cases (eqb v u)) [
    | inl same ↦
        let there : Dict.find v m ≡ some h = rw ((eqb_iff v u).0 same) here in rw (same, there) refl
    | inr other ↦ rw (other, here) refl
  ]

  -- A lookup that finds an account leaves the handles of others as they are.
  pub find_save_store-IsKept :
      (s : BlockMgr c) (u v : Bytes) (h : c.Handle)
      → IsKept s u h
      → GivesKept u h (find_save_store r sys c s v)
  unfolding find_save_store fresh_store store_get
  find_save_store-IsKept s u v h kept = branch (Dict.find v s.acct_store_map)
    where
      fresh :
          (o : Option Bytes)
          → GivesKept u h (elim o [
            | some rec ↦ (
              record s {
                db = (opened s v).0;
                acct_store_map = Dict.emplace v (opened s v).1 s.acct_store_map;
              },
              some ((opened s v).1, rec),
            )
            | none ↦ (record s { db = c.close_file (opened s v).0 (opened s v).1 }, none)
          ])
      fresh none = tt
      fresh (some rec) = (
        find-emplace_kept u v h (opened s v).1 s.acct_store_map kept.0,
        c.is_open-open s.db (get_acct_store_file_path r sys c v) h kept.1,
      )

      known :
          (g : c.Handle) (o : Option Bytes)
          → GivesKept u h (elim o [ none ↦ (s, none) | some rec ↦ (s, some (g, rec)) ])
      known g none = tt
      known g (some rec) = kept

      branch :
          (o : Option c.Handle)
          → GivesKept u h (elim o [
            | none ↦ fresh_store r sys c s v
            | some g ↦ elim (c.get_record s.db g (c_str v)) [
              | none ↦ (s, none)
              | some rec ↦ (s, some (g, rec))
            ]
          ])
      branch none = fresh (c.get_record (opened s v).0 (opened s v).1 (c_str v))
      branch (some g) = known g (c.get_record s.db g (c_str v))

  pub IsFound-find_save_store :
      (s : BlockMgr c) (u : Bytes) (h : c.Handle) (rec : Bytes)
      → IsFound s u h rec
      → find_save_store r sys c s u ≡ (s, some (h, rec))
  unfolding find_save_store store_get
  IsFound-find_save_store s u h rec found = rw (find_save_store, found.0, found.1) refl

  pub IsFound-IsKept :
      (s : BlockMgr c) (u : Bytes) (h : c.Handle) (rec : Bytes) → IsFound s u h rec → IsKept s u h
  IsFound-IsKept s u h rec found = (found.0, c.is_open-get s.db h (c_str u) rec found.1)
