-- ===== src/Save/Sorted.antt =====
-- The queue that `mprofile_save` of mprofile/record.c makes of the queues of all profiles.
use mathlib.Core.List.Perm
use mathlib.Core.List.{perm_append_comm}
use mathlib.Core.List.{Perm, map, perm_middle, append_assoc, append-nil}
use ossl_scripts.Base.{
  [], none, some, inl, inr, refl, ◌∷◌, ◌≡◌, ℕ, List, Option, ◌≢◌, All, Ordering-cases, ◌∙◌, ◌++◌,
  true, false,
}
use ossl_scripts.Tree.{RbTree, put}
use ossl_scripts.Stack.{Stray}
use ossl_scripts.Tree.Map.{
  assign, Holds, insert_new-none, insert_new-Holds, insert_new-elems, Holds-init, assign_ne,
}
use Prim.Native.Nat.{compare, Ordering}
use ossl_scripts.Save.Merge.{
  Saver, merge_record, sorting, merge_profiles, Sorting, mprofile_save, merge_records, link_saved,
  saved, chain_saved,
}
use ossl_scripts.Record.{Records, record_id_compare, build_chains}
use ossl_scripts.Tree.Keyed.{compare-IsOrder, IsSorted}
use ossl_scripts.Record.Chains.{NoRepeat}
use ossl_scripts.Stset.Merge.{Sets}
use ossl_scripts.Stset.{Stacks}
use mathlib.Core.Path.{subst, ap}
use ossl_scripts.Save.Drain.{drain_lem}
use ossl_scripts.Save.Others.{
  IsKept, IsGone, IsOwned, destroy_other-Destroys, All-IsKept, owned-IsKept,
}

pub put-perm : (c : ℕ → Ordering) (x : ℕ) (xs : List ℕ) → Perm (put c x xs) (x ∷ xs)
unfolding put
put-perm c x [] = Perm.refl (x ∷ [])
put-perm c x (y ∷ ys) =
    let behind : Perm (y ∷ put c x ys) (x ∷ y ∷ ys) =
      Perm.trans (Perm.cons y (put-perm c x ys)) (Perm.swap x y ys) in
    elim (Ordering-cases (c y)) [
      | inl below ↦ rw below (Perm.refl (x ∷ y ∷ ys))
      | inr (inl same) ↦ rw same behind
      | inr (inr above) ↦ rw above behind
    ]

module _ (T : RbTree) (stray : Stray) where
  abbrev pub id_of : Records → ℕ → ℕ
  id_of recs e = (recs e).mpr_id

  -- No record has a stack, and no two have one number.
  pub record IsPlain (recs : Records) (rs : List ℕ) : Type 0 where
    pub plain : All (λ e. (recs e).mpr_stack_id ≡ 0) rs
    pub distinct : NoRepeat (map (id_of recs) rs)

  -- The tree holds some records, and those of `todo` are not among them.
  pub record Ready (s : Saver T stray) (m : ℕ → Option ℕ) (todo : List ℕ) : Type 0 where
    pub holds : Holds compare compare-IsOrder (id_of s.recs) T s.sorter m
    pub unseen : All (λ e. m (id_of s.recs e) ≡ none) todo
    pub plain : All (λ e. (s.recs e).mpr_stack_id ≡ 0) todo
    pub distinct : NoRepeat (map (id_of s.recs) todo)

  pub still_unseen :
      (recs : Records) (m : ℕ → Option ℕ) (k r : ℕ) (xs : List ℕ)
      → All (λ i. i ≢ k) (map (id_of recs) xs)
      → All (λ e. m (id_of recs e) ≡ none) xs
      → All (λ e. assign compare m k (some r) (id_of recs e) ≡ none) xs
  still_unseen recs m k r [] ne h = tt
  still_unseen recs m k r (x ∷ xs) ne h = (
    assign_ne compare compare-IsOrder m k (some r) (id_of recs x) ne.0 ∙ h.0,
    still_unseen recs m k r xs ne.1 h.1,
  )

  -- one record goes into the tree
  pub insert_one : (s : Saver T stray) (r : ℕ) → Saver T stray
  insert_one s r = record s {
    sorter = (T.insert (record_id_compare s.recs (s.recs r)) r s.sorter).1;
  }

  merge_record-Ready :
      (room : ℕ → ℕ × ℕ) (master mp r : ℕ) (s : Saver T stray) (m : ℕ → Option ℕ) (todo : List ℕ)
      → Ready s m (r ∷ todo)
      → (merge_record T stray room master mp r s ≡ sorting (insert_one s r))
        × Ready (insert_one s r) (assign compare m (id_of s.recs r) (some r)) todo
        × Perm (T.elems (insert_one s r).sorter) (r ∷ T.elems s.sorter)
  unfolding merge_record insert_one
  merge_record-Ready room master mp r s m todo ready = (
    rw
        (
          insert_new-none compare compare-IsOrder (id_of s.recs) T ready.holds r ready.unseen.0,
          ready.plain.0,
        )
        refl,
    record {
      holds =
          insert_new-Holds compare compare-IsOrder (id_of s.recs) T ready.holds r ready.unseen.0;
      unseen = still_unseen s.recs m (id_of s.recs r) r todo ready.distinct.0 ready.unseen.1;
      plain = ready.plain.1;
      distinct = ready.distinct.1;
    },
    rw (insert_new-elems compare compare-IsOrder (id_of s.recs) T ready.holds r ready.unseen.0)
        (put-perm _ r (T.elems s.sorter)),
  )

  -- What a loop over `rs` comes to: the tree has these records more, and `todo` is still to come.
  record Merges (s : Saver T stray) (rs todo : List ℕ) (result : Sorting T stray) : Type 0 where
    tree : T.Head
    seen : ℕ → Option ℕ
    ends : result ≡ sorting (record s { sorter = tree })
    ready : Ready (record s { sorter = tree }) seen todo
    keeps : Perm (T.elems tree) (rs ++ T.elems s.sorter)

  merge_records-Merges :
      (room : ℕ → ℕ × ℕ) (master mp : ℕ) (rs todo : List ℕ) (s : Saver T stray) (m : ℕ → Option ℕ)
      → Ready s m (rs ++ todo)
      → Merges s rs todo (merge_records T stray room master mp rs s)
  unfolding merge_records insert_one
  merge_records-Merges room master mp [] todo s m ready = record {
    tree = s.sorter;
    seen = m;
    ends = refl;
    ready = ready;
    keeps = Perm.refl (T.elems s.sorter);
  }
  merge_records-Merges room master mp (r ∷ rs) todo s m ready =
      let (step, ready', more) = merge_record-Ready room master mp r s m (rs ++ todo) ready in
      let rest =
        merge_records-Merges room master mp rs todo (insert_one s r)
          (assign compare m (id_of s.recs r) (some r)) ready' in
      record {
        tree = rest.tree;
        seen = rest.seen;
        ends = rw step rest.ends;
        ready = rest.ready;
        keeps =
            Perm.trans rest.keeps
              (Perm.trans (Perm.append_left rs more) (perm_middle rs (T.elems s.sorter)));
      }

  -- the records of the profiles, one queue after the other
  unfoldable pub all_records : (queues : ℕ → List ℕ) → List ℕ → List ℕ
  all_records queues [] = []
  all_records queues (mp ∷ mps) = queues mp ++ all_records queues mps

  none_seen : (xs : List ℕ) → All (λ e. ◌≡◌ {A = Option ℕ} none none) xs
  none_seen [] = tt
  none_seen (x ∷ xs) = (refl, none_seen xs)

  regroup :
      {fs : List ℕ} (es q all : List ℕ) → Perm fs (q ++ es) → Perm (all ++ fs) ((q ++ all) ++ es)
  regroup es q all p = Perm.trans (Perm.append_left all p) (
      subst (λ l. Perm l ((q ++ all) ++ es)) (append_assoc all q es)
        (Perm.append_right es (perm_append_comm all q)))

  -- What the loop over the profiles comes to: the tree has all their records, the set of the first
  -- profile is as it was, and the others have no stacks.
  record MergesAll (master : ℕ) (s : Saver T stray) (mps rs : List ℕ) (result : Sorting T stray)
      : Type 0 where
    tree : T.Head
    after : Sets T stray
    seen : ℕ → Option ℕ
    ends : result ≡ sorting (record s { sorter = tree; sets = after })
    ready : Ready (record s { sorter = tree; sets = after }) seen []
    keeps : Perm (T.elems tree) (rs ++ T.elems s.sorter)
    same : after master ≡ s.sets master
    gone : All (IsGone T stray master after) mps
    stays : (j : ℕ) → IsGone T stray master s.sets j → IsGone T stray master after j

  other_sets :
      (s : Saver T stray) (sets : Sets T stray) {m : ℕ → Option ℕ} {todo : List ℕ}
      → Ready s m todo
      → Ready (record s { sets = sets }) m todo
  other_sets s sets r = record {
    holds = r.holds;
    unseen = r.unseen;
    plain = r.plain;
    distinct = r.distinct;
  }

  merge_profiles-MergesAll :
      (room : ℕ → ℕ × ℕ) (queues : ℕ → List ℕ) (master : ℕ) (mps : List ℕ) (s : Saver T stray)
      (m : ℕ → Option ℕ)
      → Ready s m (all_records queues mps)
      → All (IsKept T stray master s.stacks s.sets) mps
      → MergesAll master s mps
          (all_records queues mps)
          (merge_profiles T stray room queues master mps s)
  unfolding merge_profiles all_records
  merge_profiles-MergesAll room queues master [] s m ready kept = record {
    tree = s.sorter;
    after = s.sets;
    seen = m;
    ends = refl;
    ready = ready;
    keeps = Perm.refl (T.elems s.sorter);
    same = refl;
    gone = tt;
    stays = λ j k. k;
  }
  merge_profiles-MergesAll room queues master (mp ∷ mps) s m ready kept =
      let first =
        merge_records-Merges room master mp (queues mp) (all_records queues mps) s m ready in
      let s1 : Saver T stray = record s { sorter = first.tree } in
      let gone = destroy_other-Destroys T stray master mp s1 kept.0 in
      let rest =
        merge_profiles-MergesAll room queues master mps (record s1 { sets = gone.after }) first.seen
          (other_sets s1 gone.after first.ready)
          (All-IsKept T stray master s.stacks s.sets gone.after mps gone.kept kept.1) in
      record {
        tree = rest.tree;
        after = rest.after;
        seen = rest.seen;
        ends = rw (first.ends, gone.ends) rest.ends;
        ready = rest.ready;
        keeps =
            Perm.trans rest.keeps
              (regroup (T.elems s.sorter) (queues mp) (all_records queues mps) first.keeps);
        same = rest.same ∙ gone.same;
        gone = (rest.stays mp gone.gone, rest.gone);
        stays = λ j k. rest.stays j (gone.stays j k);
      }

  -- What `mprofile_save` comes to, with and without `link_chains`: the queue and the sets of stacks.
  pub record Saves (room : ℕ → ℕ × ℕ) (queues : ℕ → List ℕ) (master : ℕ) (mps : List ℕ)
      (sets : Sets T stray) (stacks : Stacks) (recs : Records) : Type 0 where
    pub queue : List ℕ
    pub after : Sets T stray
    pub unlinked :
        mprofile_save T stray room queues (master ∷ mps) false sets stacks recs
        ≡ saved queue recs after stacks
    pub linked :
        mprofile_save T stray room queues (master ∷ mps) true sets stacks recs
        ≡ chain_saved T stray queue after stacks (build_chains T queue recs)
    pub same : after master ≡ sets master
    pub gone : All (IsGone T stray master after) mps
    pub in_order : IsSorted compare compare-IsOrder (id_of recs) queue
    pub all : Perm queue (all_records queues (master ∷ mps))

  pub mprofile_save-IsSorted :
      (room : ℕ → ℕ × ℕ) (queues : ℕ → List ℕ) (master : ℕ) (mps : List ℕ) (sets : Sets T stray)
      (stacks : Stacks) (recs : Records)
      → IsPlain recs (all_records queues (master ∷ mps))
      → All (λ mp. IsOwned T stray stacks (sets mp)) mps
      → Saves room queues master mps sets stacks recs
  unfolding mprofile_save link_saved
  mprofile_save-IsSorted room queues master mps sets stacks recs p owned =
      let s : Saver T stray = record {
        sets = sets;
        stacks = stacks;
        recs = recs;
        sorter = T.init;
      } in
      let all = all_records queues (master ∷ mps) in
      let ready : Ready s (λ _. none) all = record {
        holds = Holds-init compare compare-IsOrder (id_of recs) T;
        unseen = none_seen all;
        plain = p.plain;
        distinct = p.distinct;
      } in
      let end =
        merge_profiles-MergesAll room queues master (master ∷ mps) s (λ _. none) ready
          (inl refl, owned-IsKept T stray master stacks sets mps owned) in
      record {
        queue = T.elems end.tree;
        after = end.after;
        unlinked = rw (end.ends, drain_lem T end.tree []) refl;
        linked = rw (end.ends, drain_lem T end.tree []) refl;
        same = end.same;
        gone = end.gone.1;
        in_order = end.ready.holds.sorted;
        all =
            subst (Perm (T.elems end.tree)) (ap (λ l. all ++ l) T.elems-init ∙ append-nil all)
              end.keeps;
      }
