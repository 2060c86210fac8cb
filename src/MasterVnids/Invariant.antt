-- ===== src/MasterVnids/Invariant.antt =====
-- The map and the allocator agree: a netid is held exactly while some namespace has it.
use k8s_ovs.Base.{
  ℕ, ◌+◌, ◌<◌, ◌≡◌, ◌≢◌, refl, ◌⊎◌, inl, inr, ok, none, some, Text, text_dec, lookup, delete,
  insert-Distinct, delete-Distinct, Distinct, ◌==◌, ◌||◌, ltb, arith, Bool-cases,
}
use k8s_ovs.Vnid.Bitmap.{Bitmap, BitmapLaws}
use k8s_ovs.Vnid.Allocator.{has}
use k8s_ovs.Vnid.Allocator.Laws.{IsAllocator, release_frees}
use k8s_ovs.Vnid.Allocator.Invariant.{release-IsAllocator}
use k8s_ovs.MasterVnids.{MasterVnidMap, count_value, set_vnid, release_unused, release_net_id}
use k8s_ovs.MasterVnids.Count.{hits, count-delete, count-insert, count-pos}

module _ {b : Bitmap} (laws : BitmapLaws b) where
  -- `extra` is a netid that the allocator holds for a namespace which does not have it yet; 0 if there
  -- is none.
  pub record Holds (extra : ℕ) (m : MasterVnidMap b) : Type 0 where
    pub allocator : IsAllocator laws m.net_id_manager
    pub distinct : Distinct text_dec m.ids
    pub agree :
        (id : ℕ)
        → id ≢ 0
        → has b id m.net_id_manager ≡ (ltb 0 (count_value id m.ids) || (id == extra))

  abbrev pub IsValid : MasterVnidMap b → Type 0
  IsValid = Holds 0

  -- The id that is held in advance goes to a namespace that has none.
  pub set-Holds_fresh :
      (m : MasterVnidMap b) (name : Text) (x : ℕ)
      → Holds x m
      → lookup text_dec name m.ids ≡ none
      → IsValid (set_vnid b m name x)
  set-Holds_fresh m name x v absent = record {
    allocator = v.allocator;
    distinct = insert-Distinct text_dec name x m.ids v.distinct;
    agree = λ id pos. ground (arith, v.agree id pos, count-insert id x name m.ids v.distinct);
  }

  -- An id that another namespace has, or the global one, goes to a namespace that has none.
  pub set-Holds_shared :
      (m : MasterVnidMap b) (name : Text) (x : ℕ)
      → IsValid m
      → lookup text_dec name m.ids ≡ none
      → (x ≡ 0) ⊎ (0 < count_value x m.ids)
      → IsValid (set_vnid b m name x)
  set-Holds_shared m name x v absent h = record {
    allocator = v.allocator;
    distinct = insert-Distinct text_dec name x m.ids v.distinct;
    agree = λ id pos. ground (arith, v.agree id pos, count-insert id x name m.ids v.distinct);
  }

  -- The end of `releaseNetID` restores the agreement for the id that a namespace has just lost.
  release_unused-Holds :
      (extra : ℕ) (m : MasterVnidMap b) (id : ℕ)
      → IsAllocator laws m.net_id_manager
      → Distinct text_dec m.ids
      → ((j : ℕ)
          → j ≢ 0
          → has b j m.net_id_manager
            ≡ (ltb 0 (count_value j m.ids + hits j (some id)) || (j == extra)))
      → (extra ≡ 0) ⊎ (extra ≢ id)
      → ((release_unused b m id).1 ≡ ok tt) × Holds extra (release_unused b m id).0
  unfolding release_unused
  release_unused-Holds extra m id v d agree other =
      let (answer, freed) = release_frees laws m.net_id_manager id in
      elim (Bool-cases (id == 0)) [
        | inl zero_id ↦ rw zero_id (
          refl,
          record { allocator = v; distinct = d; agree = λ j pos. ground (arith, agree j pos) },
        )
        | inr other_id ↦ elim (Bool-cases (count_value id m.ids == 0)) [
          | inl gone ↦
              rw (other_id, gone)
                (
                  answer,
                  record {
                    allocator = release-IsAllocator laws id m.net_id_manager v;
                    distinct = d;
                    agree = λ j pos. ground (arith, agree j pos, freed j);
                  },
                )
          | inr shared ↦
              rw (other_id, shared)
                (
                  refl,
                  record {
                    allocator = v;
                    distinct = d;
                    agree = λ j pos. ground (arith, agree j pos);
                  },
                )
        ]
      ]

  -- What `releaseNetID` does to a namespace that has an id: it never fails, takes exactly that
  -- namespace off the map, and the allocator still agrees with the map.
  pub release-Holds :
      (extra : ℕ) (m : MasterVnidMap b) (name : Text) (id : ℕ)
      → Holds extra m
      → lookup text_dec name m.ids ≡ some id
      → (extra ≡ 0) ⊎ (count_value extra m.ids ≡ 0)
      → ((release_net_id b m name).1 ≡ ok tt) × Holds extra (release_net_id b m name).0
  unfolding release_net_id
  release-Holds extra m name id v found unused =
      rw (found, release_net_id)
        (release_unused-Holds extra (record m { ids = delete text_dec name m.ids }) id v.allocator
          (delete-Distinct text_dec name m.ids v.distinct)
          (λ j pos. ground (arith, v.agree j pos, count-delete j name m.ids v.distinct))
          (ground (arith, count-pos id name m.ids)))

  pub ids-release :
      (m : MasterVnidMap b) (name : Text)
      → (release_net_id b m name).0.ids ≡ delete text_dec name m.ids
  unfolding release_net_id release_unused
  ids-release m name = ground arith

  pub admins-release :
      (m : MasterVnidMap b) (name : Text)
      → (release_net_id b m name).0.admin_namespaces ≡ m.admin_namespaces
  unfolding release_net_id release_unused
  admins-release m name = ground arith
