-- ===== src/Save/Tests.antt =====
-- `mprofile_save` of mprofile/record.c, and its last loop, at concrete profiles and trees.
use ossl_scripts.Base.{[], some, ◌∷◌, ◌≡◌, length}
use ossl_scripts.Save.{drain}
use ossl_scripts.Tree.Model.{sorted_list}
use ossl_scripts.Save.Drain.{drain_lem}

abbrev three : sorted_list.Head
unfolding sorted_list
three = 5 ∷ 7 ∷ 9 ∷ []

drain_lem_example :
    drain sorted_list (length (sorted_list.elems three)) three (1 ∷ [])
    ≡ some (1 ∷ sorted_list.elems three)
drain_lem_example = drain_lem sorted_list three (1 ∷ [])
