-- ===== src/TransferType/Tests.antt =====
-- The catalogue of transfer types at concrete inputs.
use pigen.Common.{ℕ, ◌<◌, ◌≤◌, ◌⊎◌, none, ◌≡◌, refl, ◌↔◌, some, List, [], ◌∷◌}
use pigen.TransferType.{
  TypeDescriptor, pigen_transfer_type_descriptor_get, pigen_transfer_type_from_spelling,
  buffered_row, depth, parameterized_queue, contextual,
}
use pigen.TransferType.Laws.{spelling_of, from_spelling_iff, HasCoherentRow, catalogue-IsCoherent}

abbrev fifo : List ℕ
fifo = b'f' ∷ b'i' ∷ b'f' ∷ b'o' ∷ []

fifo_row :
    pigen_transfer_type_descriptor_get 6
    ≡ some (buffered_row fifo depth parameterized_queue contextual)
unfolding pigen_transfer_type_descriptor_get
fifo_row = refl

from_spelling_iff_example :
    (pigen_transfer_type_from_spelling fifo ≡ some 6) ↔ (spelling_of 6 ≡ some fifo)
from_spelling_iff_example = from_spelling_iff fifo 6

catalogue-IsCoherent_example :
    ((6 < 8)
      × (d : TypeDescriptor) × (pigen_transfer_type_descriptor_get 6 ≡ some d)
      × HasCoherentRow d)
    ⊎ ((8 ≤ 6) × (pigen_transfer_type_descriptor_get 6 ≡ none))
catalogue-IsCoherent_example = catalogue-IsCoherent 6
