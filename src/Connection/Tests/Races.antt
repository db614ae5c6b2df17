-- ===== src/Connection/Tests/Races.antt =====
-- A thread that sends, against the handlers of the writes, on concrete messages.
use process_manager_service.Prelude.{
  [], arith, false, returned, some, true, undefined, ◌++◌, ◌>>=◌, ◌∷◌, ◌≡◌,
}
use process_manager_service.Connection.Stream.{frames_all}
use process_manager_service.Connection.Write.{post_write_message_body, send_message}
use process_manager_service.Connection.Runs.{run}
use process_manager_service.Connection.Drain.{writing_header, idle}
use process_manager_service.Connection.Race.Late.{followed, overtaken, overtaken-undefined}
use process_manager_service.Connection.Race.Stranded.{
  interrupted, many_completions, interrupted-stranded,
}
use process_manager_service.Connection.Tests.{Failure, hello, bye, open_connection}

overtaken-undefined_example :
    (followed {X = Failure} 8 bye (hello ∷ bye ∷ []) (writing_header open_connection true hello [])
      ≡ returned
          (idle open_connection true (open_connection.wire ++ frames_all (hello ∷ bye ∷ []))))
    × (overtaken {X = Failure} 8 bye
          (hello ∷ bye ∷ [])
          (writing_header open_connection true hello [])
        ≡ undefined)
overtaken-undefined_example =
    overtaken-undefined Failure 8 hello bye [] open_connection (omega arith, (omega arith, tt))

interrupted-stranded_example :
    let written = record open_connection {
      socket = some true;
      sending_in_progress = true;
      messages_queue = hello ∷ [];
      writes = [];
    } in
    let stranded = record (idle open_connection true open_connection.wire) {
      messages_queue = bye ∷ [];
    } in
    ((post_write_message_body {X = Failure} false written >>= λ c1. send_message bye c1)
      ≡ returned (writing_header open_connection true bye []))
    × (interrupted {X = Failure} bye written ≡ returned stranded)
    × (run {X = Failure} 8 (many_completions 5) stranded ≡ returned stranded)
    × (send_message {X = Failure} hello stranded
        ≡ returned (writing_header open_connection true bye (hello ∷ [])))
interrupted-stranded_example = interrupted-stranded Failure 8 hello bye hello 5 open_connection
