-- ===== src/Tests/Queues.antt =====
-- internal/host: the queues of streamed logs and of stdin.
use rmtx.Base.{◌≡◌, refl, false, [], ◌∷◌, arith}
use rmtx.Host.LogStream.{
  LogQueue, Chunk, new_log_queue, enqueue, enqueue_open, make_room, add_marker, compact, next_item,
}
use rmtx.Host.LogStream.Live.{live}
use rmtx.Host.LogStream.Enqueue.{IsWithin, Grows, enqueue-IsWithin, enqueue-Grows}
use rmtx.Host.LogStream.Next.{Taken, next_item-Taken}
use rmtx.Host.PipeInput.{PipeInput, new_pipe_input, write_input, read_input}
use rmtx.Host.PipeInput.Stream.{Wrote, Gave, write_input-Wrote, read_input-Gave}
use rmtx.Host.PipeInput.Stream

new_log_queue-IsWithin : IsWithin new_log_queue
unfolding new_log_queue
new_log_queue-IsWithin = record {
  counted = (omega arith, refl);
  fits = (omega arith, omega arith);
  unmarked = refl;
}

abbrev hello : Chunk
hello = 104 ∷ 105 ∷ 10 ∷ []

abbrev one_log : LogQueue
one_log = enqueue hello new_log_queue

enqueue-IsWithin_example : IsWithin one_log
enqueue-IsWithin_example = enqueue-IsWithin hello new_log_queue new_log_queue-IsWithin

one_log_open : one_log.closed ≡ false
unfolding enqueue enqueue_open make_room add_marker compact new_log_queue
one_log_open = refl

enqueue-Grows_example : Grows hello one_log (enqueue hello one_log)
enqueue-Grows_example =
    enqueue-Grows hello one_log enqueue-IsWithin_example one_log_open (omega arith)

next_item-Taken_example :
    IsWithin (next_item one_log).1
    × Taken (live one_log) (next_item one_log).0 (live (next_item one_log).1)
next_item-Taken_example = next_item-Taken one_log enqueue-IsWithin_example

new_pipe_input-IsValid : Stream.IsValid new_pipe_input
new_pipe_input-IsValid = record {
  inside = omega arith;
  counted = refl;
  bounded = omega arith;
  filled = tt;
}

write_input-Wrote_example :
    Stream.IsValid (write_input hello new_pipe_input).1
    × Wrote hello new_pipe_input
        (write_input hello new_pipe_input).0
        (write_input hello new_pipe_input).1
write_input-Wrote_example = write_input-Wrote hello new_pipe_input new_pipe_input-IsValid

abbrev one_input : PipeInput
one_input = (write_input hello new_pipe_input).1

one_input-IsValid : Stream.IsValid one_input
one_input-IsValid = (write_input-Wrote hello new_pipe_input new_pipe_input-IsValid).0

read_input-Gave_example :
    Stream.IsValid (read_input 2 one_input).1
    × Gave 2 one_input (read_input 2 one_input).0 (read_input 2 one_input).1
read_input-Gave_example = read_input-Gave 2 one_input one_input-IsValid
