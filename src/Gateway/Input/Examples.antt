-- ===== src/Gateway/Input/Examples.antt =====
-- The budget at a concrete input.
use claw_work.Prelude.{[], js, none, refl, some, starts_with, true, ◌∷◌, ◌≤◌}
use claw_work.Gateway.Input.{
  Collected, InputFile, Outside, block_of, collect, load_file, parse_with_isolated_service,
  text_block, to_document_block, truncate_text,
}
use claw_work.Gateway.Input.Budget.{collect-total_length, total_length}

abbrev text_file : InputFile
text_file = record {
  filename = js "a.txt";
  mime_type = js "text/plain";
  size_bytes = 2;
  content_url = none;
  content_path = some (js "/tmp/a.txt");
}

abbrev read_file : Outside
read_file = record {
  download = none;
  local = some (104 ∷ 105 ∷ []);
  base64 = λ c. c;
  answer =
      some (record { ok = true; status = 200; text = some (js "hi"); code = none; message = none });
}

abbrev collected : Collected
collected = record {
  attachments = [];
  blocks = record { index = 1; file = text_file; content = js "hi"; counted = true } ∷ [];
}

collect-total_length_example : total_length collected.blocks ≤ 16255
unfolding collect to_document_block block_of text_block truncate_text parse_with_isolated_service
    load_file starts_with
collect-total_length_example = collect-total_length ((text_file, read_file) ∷ []) collected refl
