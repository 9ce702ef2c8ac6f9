-- ===== src/Tests/Sockets.antt =====
-- The sockets of crates/ipc/src/lib.rs.
use slopos.Base.{ℕ, find, ◌≡◌, refl, List, [], ◌∷◌, err, arith}
use slopos.Ipc.Ring.{ByteRing, push, pop}
use slopos.Ipc.Ring.Queue.{Popped, pop-Popped}
use slopos.Ipc.Ring.Queue
use slopos.Ipc.Sockets.{
  SocketHandle, LocalSocketTable, new, slot_mut, invalid_handle, socket, bind, listen,
}
use slopos.Ipc.Streams.{send_exact, recv}
use slopos.Ipc.Invariant.{
  act, opens, binds, listens, connects, sends, closes, IsValid, new-IsValid, act-IsValid,
}
use slopos.Ipc.Closing.{Closed, close-Closed}
use slopos.Ipc.Connections.{close, connect, find_from}
use slopos.Ipc.Delivery.{SentWhole, send_exact-SentWhole, Read, recv-Read}

-- A ring of four bytes that has turned: two bytes from the third place on.
abbrev turned : ByteRing
turned = record { bytes = 0 ∷ 0 ∷ 7 ∷ 8 ∷ []; head = 2; length = 2 }

turned-IsValid : Queue.IsValid turned
turned-IsValid = record { fits = omega arith; inside = omega arith }

pushed_bytes :
    push turned (1 ∷ 2 ∷ 3 ∷ []) ≡ (2, record { bytes = 1 ∷ 2 ∷ 7 ∷ 8 ∷ []; head = 2; length = 4 })
unfolding push
pushed_bytes = refl

pop-Popped_example : Popped turned 1 (pop turned 1).0 (pop turned 1).1
pop-Popped_example = pop-Popped turned 1 turned-IsValid

abbrev first_handle : SocketHandle
first_handle = record { index = 0; generation = 1 }

abbrev second_handle : SocketHandle
second_handle = record { index = 1; generation = 1 }

abbrev address : List ℕ
address = 47 ∷ 100 ∷ []

-- A server that listens, and a client that has connected.
abbrev served : LocalSocketTable
served =
    act
      (act (act (act (act (new 4 2 3) opens) opens) (binds first_handle address))
        (listens first_handle))
      (connects second_handle address)

served-IsValid : IsValid served
served-IsValid =
    act-IsValid
      (act (act (act (act (new 4 2 3) opens) opens) (binds first_handle address))
        (listens first_handle))
      (connects second_handle address)
      (act-IsValid (act (act (act (new 4 2 3) opens) opens) (binds first_handle address))
        (listens first_handle)
        (act-IsValid (act (act (new 4 2 3) opens) opens) (binds first_handle address) (
          act-IsValid (act (new 4 2 3) opens) opens
            (act-IsValid (new 4 2 3) opens (new-IsValid 4 2 3 (omega arith))))))

act-IsValid_example : IsValid (act served (closes second_handle))
act-IsValid_example = act-IsValid served (closes second_handle) served-IsValid

send_exact-SentWhole_example :
    SentWhole served second_handle (1 ∷ 2 ∷ []) (send_exact served second_handle (1 ∷ 2 ∷ []))
send_exact-SentWhole_example = send_exact-SentWhole served second_handle (1 ∷ 2 ∷ []) served-IsValid

recv-Read_example :
    Read
      (act served (sends second_handle (1 ∷ 2 ∷ [])))
      (record { index = 2; generation = 1 })
      1
      (recv
        (act served (sends second_handle (1 ∷ 2 ∷ [])))
        (record { index = 2; generation = 1 })
        1)
recv-Read_example =
    recv-Read (act served (sends second_handle (1 ∷ 2 ∷ []))) (record { index = 2; generation = 1 })
      1 (act-IsValid served (sends second_handle (1 ∷ 2 ∷ [])) served-IsValid)

close-Closed_example : Closed served second_handle (close served second_handle)
close-Closed_example = close-Closed served second_handle served-IsValid

close_stale : slot_mut (close served second_handle).1 second_handle ≡ err invalid_handle
unfolding act new socket bind listen connect close slot_mut find find_from
close_stale = refl
