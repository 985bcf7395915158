-- ===== src/RfTask/Bond/RoundTrip.antt =====
-- What firmware/src/rf_task.c saves of its bond, it loads again.
use open_controller.Prelude.{
  ℕ, ◌≡◌, refl, sym, ap, ap₂, ◌∙◌, Bool, true, false, not, ◌&&◌, Option, none, some, List, [], ◌∷◌,
  if◌then◌else◌, take, drop, get_or, length, replicate, inl, inr, Bool-cases, arith,
}
use open_controller.RfTask.DataFlash.{Flash, Works}
use open_controller.RfTask.Bond.{
  Bond, word, bond_record_valid, build_bond_record, record_matches, flash_is_erased, load_read,
  load_bond_from_flash, save_read, write_record, erase_and_write, save_bond_to_flash,
  clear_bond_flash,
}
use open_controller.RfTask.Bond.Bytes.{
  IsBond, is_session, Holds, build-Holds, Holds-valid, record_matches-eq,
}

-- An erased record is all ones.
flash_is_erased-eq :
    (bytes : List ℕ) → flash_is_erased bytes ≡ true → bytes ≡ replicate (length bytes) 0xff
unfolding flash_is_erased
flash_is_erased-eq [] h = refl
flash_is_erased-eq (b ∷ bytes) h =
    let e : b ≡ 0xff = ground arith in
    let k : flash_is_erased bytes ≡ true = ground arith in ap₂ ◌∷◌ e (flash_is_erased-eq bytes k)

-- The branches the other way round.
either :
    (x : Bool) (old fields b : Bond)
    → fields ≡ b
    → ◌≡◌ {A = Bond × Bool}
        (if not x then (old, false) else (fields, true))
        (if x then (b, true) else (old, false))
either true old fields b e = λ i. (e i, true)
either false old fields b e = refl

module _ (flash : Flash) (works : Works flash) where
  open flash use {Page, read, erase, write}

  -- A page that reads as a record's bytes is loaded as its bond, if that is one for a session.
  load-Holds :
      (page : Page) (bytes : List ℕ) (b old : Bond)
      → IsBond b
      → Holds bytes b
      → read page ≡ some bytes
      → load_bond_from_flash flash page old
        ≡ (if is_session b.session_aa then (b, true) else (old, false))
  unfolding load_bond_from_flash load_read
  load-Holds page bytes b old v h r =
      let ok = Holds-valid bytes b h in
      let fields : Bond = record {
        has_bond = true;
        dongle_mac = take 6 (drop 12 bytes);
        session_aa = word bytes 8;
        type_tag = get_or bytes 5 0;
      } in
      let same : fields ≡ b = λ i. record {
        has_bond = sym v.has i;
        dongle_mac = h.mac i;
        session_aa = h.aa i;
        type_tag = h.tag i;
      } in
      ap (λ o. load_read o old) r
      ∙ ap (λ (x : Bool). if not x then (old, false) else (fields, true)) ok
      ∙ either (is_session b.session_aa) old fields b same

  read-write_record :
      (b : Bond) (page : Page)
      → IsBond b
      → read page ≡ some (replicate 24 0xff)
      → read (write_record flash b page) ≡ some (build_bond_record b)
  unfolding write_record
  read-write_record b page v r = works.written page (build_bond_record b) r (build-Holds b v).size

  read-erase_and_write :
      (b : Bond) (page : Page)
      → IsBond b
      → read (erase_and_write flash b page) ≡ some (build_bond_record b)
  unfolding erase_and_write
  read-erase_and_write b page v =
      rw (works.erases page) (read-write_record b (erase page).0 v (works.erased page))

  read-save_read :
      (b : Bond) (page : Page) (o : Option (List ℕ))
      → IsBond b
      → read page ≡ o
      → read (save_read flash o b page) ≡ some (build_bond_record b)
  unfolding save_read
  read-save_read b page none v e = read-erase_and_write b page v
  read-save_read b page (some bytes) v e =
      let want = build_bond_record b in
      let long = works.reads page bytes e in
      elim (Bool-cases (bond_record_valid bytes && record_matches bytes want)) [
        | inl k ↦ rw k (
            e
            ∙ ap some
                (record_matches-eq bytes want (long ∙ sym (build-Holds b v).size) (ground arith)))
        | inr k ↦ elim (Bool-cases (flash_is_erased bytes)) [
          | inl j ↦
              rw (k, j)
                (read-write_record b page v
                  (e ∙ ap some (flash_is_erased-eq bytes j ∙ ap (λ n. replicate n 0xff) long)))
          | inr j ↦ rw (k, j) (read-erase_and_write b page v)
        ]
      ]

  -- On a part in order, whatever a page held before and whatever bond is in memory at the load: a
  -- bond, in the sizes of C's types, that is saved to the page is loaded from it if its session
  -- address is neither zero nor that of pairing; with one of those two, which saving does not refuse,
  -- no bond is found. And a bond that is cleared is not found.
  pub load-save :
      (b old : Bond) (page : Page)
      → IsBond b
      → (load_bond_from_flash flash (save_bond_to_flash flash b page) old
          ≡ (if is_session b.session_aa then (b, true) else (old, false)))
        × (load_bond_from_flash flash (clear_bond_flash flash page) old ≡ (old, false))
  unfolding save_bond_to_flash clear_bond_flash load_bond_from_flash load_read bond_record_valid
  load-save b old page v =
      let saved : save_bond_to_flash flash b page ≡ save_read flash (read page) b page =
        ap (λ x. if not x then page else save_read flash (read page) b page) v.has in
      (
        load-Holds (save_bond_to_flash flash b page) (build_bond_record b) b old v (build-Holds b v)
            (ap read saved ∙ read-save_read b page (read page) v refl),
        ap (λ o. load_read o old) (works.erased page),
      )
