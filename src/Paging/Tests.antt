-- ===== src/Paging/Tests.antt =====
-- A listing of three numbers in pages of two.
use universal_data_onboarder.Base.{◌≡◌, ℕ, ◌≤◌, refl, List, [], ◌∷◌, some, length, pos, arith}
use universal_data_onboarder.Paging.{Page, page_of}
use universal_data_onboarder.Paging.Laws.{pages_up_to, pages_whole}

abbrev three : List ℕ
three = 7 ∷ 8 ∷ 9 ∷ []

abbrev second : Page ℕ
second = page_of 100 three (some (pos 2)) (some (pos 2))

second_page : second.items ≡ 9 ∷ []
unfolding page_of
second_page = refl

pages_whole_example :
    (1 ≤ second.limit)
    × (second.limit ≤ 100)
    × (length second.items ≤ second.limit)
    × (pages_up_to 100 three (some (pos 2)) 2 ≡ three)
unfolding page_of
pages_whole_example =
    pages_whole 100 three (some (pos 2)) (some (pos 2)) 2 (omega arith) (omega arith)
