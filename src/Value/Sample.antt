-- ===== src/Value/Sample.antt =====
-- A host for the tests: its numbers are whole, and written in unary.
use universal_data_onboarder.Base.{ℕ, zero, suc, [], ◌∷◌, Text, length}
use universal_data_onboarder.Value.{Host}

abbrev unary : ℕ → Text
unary zero = []
unary (suc n) = 49 ∷ unary n

abbrev pub sample_host : Host
sample_host = record {
  number_of_text = length;
  date_of_text = length;
  date_of_number = λ n. n;
  text_of_number = unary;
  text_of_date = unary;
}
