-- ===== src/Stset/Contents.antt =====
-- What a set of call stacks of mprofile/stack.c holds: a map from frames to the stack that has them, and the
-- same stacks by id.
use ossl_scripts.Base.{none, some, ◌≡◌, ◌<◌, ℕ, List, Option, arith, sym, true, ◌==◌}
use ossl_scripts.Tree.Keyed.{IsOrder, compare-IsOrder}
use ossl_scripts.Stack.{MpsStack, stack_id_compare, Stray, mps_flag_managed}
use ossl_scripts.Tree.{by_order, RbTree}
use ossl_scripts.Stset.{Stacks, create_stset, StackSet, by_id, by_frames}
use Prim.Native.Nat.{compare}
use ossl_scripts.Stack.Compare.{IsFilled, stack_compare-key_compare}
use ossl_scripts.Stack.Frames.{frames}
use ossl_scripts.Stack.Order.{key_compare, key_compare-eq_iff, key_compare_trans, key_compare-gt}
use ossl_scripts.Tree.Map.{Holds, Holds-init}
use ossl_scripts.Tree.Agree.{find-agrees, ComparesAs, Holds-rekey, Holds-elems}
use ossl_scripts.Tree.Members.{Holds-All, Holds-key}

pub key_compare-IsOrder : IsOrder key_compare
key_compare-IsOrder = record {
  eq_iff = key_compare-eq_iff;
  flips = key_compare-gt;
  trans = key_compare_trans;
}

abbrev pub frames_at : Stacks → ℕ → List ℕ
frames_at objs e = frames (objs e)

abbrev pub id_at : Stacks → ℕ → ℕ
id_at objs e = (objs e).mps_id

-- a stack that the trees can hold
pub record IsUsable (m : MpsStack) : Type 0 where
  pub filled : IsFilled m
  pub not_empty : 0 < m.mps_stack_depth

-- a stack that a set has allocated
pub record IsStored (m : MpsStack) : Type 0 where
  pub filled : IsFilled m
  pub not_empty : 0 < m.mps_stack_depth
  pub managed : (m.mps_flags == mps_flag_managed) ≡ true

-- how often the stack that has been found was recorded
abbrev pub uses : Stacks → Option ℕ → ℕ
uses objs none = 0
uses objs (some e) = (objs e).mps_count

-- 1 for equal frames, and 0 for others
abbrev pub hits : (k fs : List ℕ) → ℕ
hits k fs = by_order (key_compare k fs) 0 1 0

pub stack_id_compare-compare : (a b : MpsStack) → stack_id_compare a b ≡ compare a.mps_id b.mps_id
unfolding stack_id_compare
stack_id_compare-compare a b = ground arith

module _ (T : RbTree) (stray : Stray) where
  pub record Contains (set : StackSet T stray) (objs : Stacks) (m : List ℕ → Option ℕ)
      (ids : ℕ → Option ℕ) : Type 0 where
    pub by_frames_tree : Holds key_compare key_compare-IsOrder (frames_at objs) T set.stset_rbh m
    pub by_id_tree : Holds compare compare-IsOrder (id_at objs) T set.stset_id_rbh ids
    pub usable : (k : List ℕ) (e : ℕ) → m k ≡ some e → IsStored (objs e)
    pub low : (i e : ℕ) → ids i ≡ some e → i < set.stset_id
    pub has_id : (k : List ℕ) (e : ℕ) → m k ≡ some e → ids (id_at objs e) ≡ some e
    pub has_frames : (i e : ℕ) → ids i ≡ some e → m (frames_at objs e) ≡ some e

  pub create_stset-Contains :
      (objs : Stacks) → Contains (create_stset T stray) objs (λ _. none) (λ _. none)
  unfolding create_stset
  create_stset-Contains objs = record {
    by_frames_tree = Holds-init key_compare key_compare-IsOrder (frames_at objs) T;
    by_id_tree = Holds-init compare compare-IsOrder (id_at objs) T;
    usable = λ k e h. absurd (cc);
    low = λ i e h. absurd (cc);
    has_id = λ k e h. absurd (cc);
    has_frames = λ i e h. absurd (cc);
  }

  module _ {set : StackSet T stray} {objs : Stacks} {m : List ℕ → Option ℕ} {ids : ℕ → Option ℕ}
      (h : Contains set objs m ids) where
    -- `stack_compare` and `stack_id_compare` order the elements of the two trees by their keys.
    pub by_frames-ComparesAs :
        (new : MpsStack)
        → IsFilled new
        → ComparesAs key_compare key_compare-IsOrder
            (frames_at objs)
            (by_frames T stray objs new)
            (frames new)
            (T.elems set.stset_rbh)
    by_frames-ComparesAs new filled =
        Holds-All key_compare key_compare-IsOrder (frames_at objs) T h.by_frames_tree
          (λ e. by_frames T stray objs new e ≡ key_compare (frames new) (frames_at objs e))
          (λ e here.
            let u = h.usable (frames_at objs e) e here in
            stack_compare-key_compare stray new (objs e) filled u.filled u.not_empty)

    pub by_id-ComparesAs :
        (new : MpsStack)
        → ComparesAs compare compare-IsOrder
            (id_at objs)
            (by_id T stray objs new)
            new.mps_id
            (T.elems set.stset_id_rbh)
    by_id-ComparesAs new =
        Holds-All compare compare-IsOrder (id_at objs) T h.by_id_tree
          (λ e. by_id T stray objs new e ≡ compare new.mps_id (id_at objs e))
          (λ e here. stack_id_compare-compare new (objs e))

    -- what `RB_FIND` finds
    pub find-by_frames :
        (new : MpsStack)
        → IsFilled new
        → T.find (by_frames T stray objs new) set.stset_rbh ≡ m (frames new)
    find-by_frames new filled =
        find-agrees key_compare key_compare-IsOrder T (frames_at objs) h.by_frames_tree (frames new)
          (by_frames T stray objs new) (by_frames-ComparesAs new filled)

    pub find-by_id :
        (new : MpsStack) → T.find (by_id T stray objs new) set.stset_id_rbh ≡ ids new.mps_id
    find-by_id new =
        find-agrees compare compare-IsOrder T (id_at objs) h.by_id_tree new.mps_id
          (by_id T stray objs new) (by_id-ComparesAs new)

    -- a stack of the set is found by its frames
    pub own : (k : List ℕ) (e : ℕ) → m k ≡ some e → m (frames_at objs e) ≡ some e
    own k e here =
        rw
          (sym
            (Holds-key key_compare key_compare-IsOrder (frames_at objs) T h.by_frames_tree k here))
          here

    -- The stacks of the set may change in what is neither their frames nor their ids.
    pub Contains-same :
        (objs' : Stacks)
        → ((e : ℕ)
            → m (frames_at objs e) ≡ some e
            → (frames_at objs' e ≡ frames_at objs e)
              × (id_at objs' e ≡ id_at objs e)
              × (IsStored (objs e) → IsStored (objs' e)))
        → Contains set objs' m ids
    Contains-same objs' same = record {
      by_frames_tree =
          Holds-rekey key_compare key_compare-IsOrder T (frames_at objs) (frames_at objs')
            (Holds-All key_compare key_compare-IsOrder (frames_at objs) T h.by_frames_tree
              (λ e. frames_at objs e ≡ frames_at objs' e) (λ e here. sym (same e here).0))
            h.by_frames_tree;
      by_id_tree =
          Holds-rekey compare compare-IsOrder T (id_at objs) (id_at objs')
            (Holds-All compare compare-IsOrder (id_at objs) T h.by_id_tree
              (λ e. id_at objs e ≡ id_at objs' e)
              (λ e here. sym (same e (h.has_frames (id_at objs e) e here)).1))
            h.by_id_tree;
      usable = λ k e here. (same e (own k e here)).2 (h.usable k e here);
      low = h.low;
      has_id = λ k e here. rw ((same e (own k e here)).1) (h.has_id k e here);
      has_frames = λ i e here. let there = h.has_frames i e here in rw ((same e there).0) there;
    }

  -- only the elements of the trees count
  pub Contains-elems :
      {set set' : StackSet T stray} {objs : Stacks} {m : List ℕ → Option ℕ} {ids : ℕ → Option ℕ}
      → Contains set objs m ids
      → T.elems set'.stset_rbh ≡ T.elems set.stset_rbh
      → T.elems set'.stset_id_rbh ≡ T.elems set.stset_id_rbh
      → set'.stset_id ≡ set.stset_id
      → Contains set' objs m ids
  Contains-elems {objs = objs} h frames_same ids_same next_same = record {
    by_frames_tree =
        Holds-elems key_compare key_compare-IsOrder T (frames_at objs) frames_same h.by_frames_tree;
    by_id_tree = Holds-elems compare compare-IsOrder T (id_at objs) ids_same h.by_id_tree;
    usable = h.usable;
    low = λ i e here. rw next_same (h.low i e here);
    has_id = h.has_id;
    has_frames = h.has_frames;
  }
