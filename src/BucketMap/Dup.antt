-- ===== src/BucketMap/Dup.antt =====
-- `insert_dup` of src/bucket_map.rs: a list that is no key gets an alias to its bucket.
use mathlib.Core.Option
use mathlib.Core.List.{Permᴰ}
use ohnotel.Base.{
  ℕ, ◌≤◌, ◌≡◌, refl, sym, ap, ◌∙◌, Bool, List, ◌∷◌, none, some, arith, Bool-cases, inl, inr,
}
use ohnotel.Model.Order.{Ord}
use ohnotel.Attrs.{normalize}
use ohnotel.Fingerprint.{
  AttrFingerprint, eq_fingerprint, eq_of_eq_fingerprint, eq_fingerprint_refl, commutative_hash,
  table_hash,
}
use ohnotel.Table.Items.{count, first, first-eq-none, count-perm, first-perm, All-perm}
use ohnotel.BucketMap.State.{AliasKey, AliasEntry, Params, BucketMap}
use ohnotel.BucketMap.Lookup.{insert_dup}
use ohnotel.BucketMap.Inv.{aliases_of, bucket_for, alias_for, AliasOk, Inv, NoCollision}
use ohnotel.BucketMap.Find.{find_alias}

module _ {K A : Type 0} {p : Params K A} (m : BucketMap p) (key : AliasKey K) (bucket : ℕ) where
  abbrev pub aliased : BucketMap p
  aliased = record m {
    aliases =
        p.alias.insert (table_hash p.build key.raw_fp) (record { key = key; bucket = bucket })
          m.aliases;
  }

module _ {K A : Type 0} ⦃o : Ord K⦄ {p : Params K A} {m : BucketMap p} (inv : Inv m)
    (key : AliasKey K) (bucket : ℕ) where
  abbrev test : AttrFingerprint → AliasEntry K → Bool
  test fp e = eq_fingerprint e.key.raw_fp fp

  abbrev new_alias : AliasEntry K
  new_alias = record { key = key; bucket = bucket }

  -- With no alias of that fingerprint, a new one is filed; else nothing changes.
  pub insert_dup_lem :
      alias_for m key.raw_fp ≡ none → insert_dup key bucket m ≡ (aliased m key bucket)
  unfolding insert_dup alias_for
  insert_dup_lem absent =
      let missing : first (test key.raw_fp) (aliases_of m) ≡ none = ground (arith, absent) in
      rw (find_alias inv key.raw_fp ∙ missing, insert_dup)

  module _ (absent : alias_for m key.raw_fp ≡ none) where
    order :
        Permᴰ
          ((table_hash p.build key.raw_fp, new_alias) ∷ aliases_of m)
          (aliases_of (aliased m key bucket))
    order = p.alias.items-insert (table_hash p.build key.raw_fp) new_alias m.aliases

    no_alias : count (test key.raw_fp) (aliases_of m) ≡ 0
    unfolding alias_for
    no_alias = first-eq-none (test key.raw_fp) (aliases_of m) (ground (arith, absent))

    unique_aliased :
        (fp : AttrFingerprint)
        → count (test fp) ((table_hash p.build key.raw_fp, new_alias) ∷ aliases_of m) ≤ 1
    unfolding count
    unique_aliased fp = elim (Bool-cases (eq_fingerprint key.raw_fp fp)) [
      | inl e ↦
          let same = eq_of_eq_fingerprint key.raw_fp fp e in
          let zero' : count (test fp) (aliases_of m) ≡ 0 = rw same at no_alias in
          rw (e, zero') (omega arith)
      | inr e ↦ rw e (omega (arith, inv.alias_unique fp))
    ]

    pub aliased-Inv :
        key.raw_fp ≡ commutative_hash p.build key.raw_attrs
        → bucket_for m (normalize key.raw_attrs) ≡ some bucket
        → Inv (aliased m key bucket)
    unfolding bucket_for
    aliased-Inv hashed leads = record {
      entries = inv.entries;
      unique = inv.unique;
      alias_entries =
          All-perm (AliasOk p (bucket_for m)) order
            (record { filed = refl; hashed = hashed; leads = leads }, inv.alias_entries);
      alias_unique = λ fp. rw (sym (count-perm (test fp) order)) (unique_aliased fp);
      owned = inv.owned;
      apart = inv.apart;
      root = inv.root;
      started = inv.started;
    }

    pub alias_for-aliased : alias_for (aliased m key bucket) key.raw_fp ≡ some bucket
    unfolding alias_for first
    alias_for-aliased =
        ap (Option.map (λ (e : AliasEntry K). e.bucket))
          (sym (first-perm (test key.raw_fp) order (unique_aliased key.raw_fp)))
        ∙ rw (eq_fingerprint_refl key.raw_fp)

    -- The new alias collides with no list that has its normal form.
    pub aliased-NoCollision :
        (attrs : List K)
        → normalize key.raw_attrs ≡ normalize attrs
        → NoCollision m attrs
        → NoCollision (aliased m key bucket) attrs
    aliased-NoCollision attrs same apart =
        All-perm
          (λ x.
            x.1.key.raw_fp ≡ commutative_hash p.build attrs
            → normalize x.1.key.raw_attrs ≡ normalize attrs)
          order (λ _. same, apart)
