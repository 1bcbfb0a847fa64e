-- ===== src/Port.antt =====
-- Message ports, kernel/port.c: a queue of messages that one task receives from.
pub mod Chain
pub mod Copy
pub mod Body
pub mod Deliver
pub mod Target
pub mod Send
pub mod Take
pub mod Recv
pub mod Slave
mod Tests
use jeffos.Base.{
  positive, ℕ, zero, suc, ◌+◌, ◌-◌, ◌%◌, ◌^◌, Bool, not, ◌&&◌, ◌||◌, ◌==◌, ltb, if◌then◌else◌,
}
use jeffos.Status.{Outcome, ok, halted, ◌>>=◌}
use jeffos.Pages.Alloc.{Block, mm_alloc_pages}
use jeffos.KMem.{kmalloc, kfree, kmalloc_b, kfree_b}
use jeffos.Sched.{t_ready, t_sleep_port, set_state, ps_switch_task}
use jeffos.Resource.{rsrc_find, rsrc_del}
use jeffos.Kernel.{
  MsgPort, Message, Kernel, heap_of, with_heap, update, with_machine, with_table, with_task,
  new_resource, err_none, err_permission, err_resource, err_memory, err_sendport, err_recvport,
}

abbrev pub rsrc_port : ℕ
rsrc_port = 3

abbrev pub km32 : ℕ
km32 = 1

-- `msg_hdr_t` of kernel/port.h, in the task's memory.
pub record MsgHdr : Type 0 where
  pub flags : ℕ
  pub src : ℕ
  pub dst : ℕ
  pub size : ℕ
  pub pid : ℕ
  pub body : ℕ

abbrev pub find_port : Kernel → ℕ → ℕ
find_port k id = rsrc_find k.machine.table rsrc_port id

abbrev pub with_port : Kernel → ℕ → MsgPort → Kernel
with_port k p v = record k { port = update k.port p v }

unfoldable pub port_create : Kernel → ℕ → Outcome (Kernel × ℕ)
unfolding new_resource
port_create k restrict = do
  (h, p) ← kmalloc (heap_of k) km32
  let v : MsgPort = record {
    owner = k.machine.current_task;
    restrict = restrict;
    msgcount = 0;
    slaved = 0;
    first = 0;
    last = 0;
    refcount = 1;
  }
  new_resource (with_port (with_heap k h) p v) rsrc_port p

unfoldable pub port_destroy : Kernel → ℕ → Outcome (Kernel × ℕ)
port_destroy k id =
    let p = find_port k id in
    let destroyed = (do
      h ← kfree (heap_of k) km32 p
      ok (with_table (with_heap k h) (rsrc_del k.machine.table id), err_none)) in
    if p == 0
    then ok (k, err_resource)
    else if not ((k.port p).owner == k.machine.current_task)
    then ok (k, err_permission)
    else if (k.port p).refcount == 1
    then destroyed
    else ok (k, err_resource)

-- `master->refcount` changed by 1: `by` is 1 or the word that stands for -1.
abbrev pub count_slave : ℕ → Kernel → ℕ → Kernel
count_slave by k p =
    with_port k p (record (k.port p) { refcount = ((k.port p).refcount + by) % 2 ^ 32 })

abbrev pub minus_one : ℕ
minus_one = 2 ^ 32 - 1

-- The change of master: `p->slaved` drops the old one, if there is one, and becomes `arg`.
unfoldable pub change_master : Kernel → ℕ → ℕ → Outcome (Kernel × ℕ)
change_master k p arg =
    let old = find_port k (k.port p).slaved in
    let k' = if (k.port p).slaved == 0 then k else count_slave minus_one k old in
    if not ((k.port p).slaved == 0) && (old == 0)
    then halted
    else ok (with_port k' p (record (k'.port p) { slaved = arg }), err_none)

unfoldable pub set_slave : Kernel → ℕ → ℕ → Outcome (Kernel × ℕ)
unfolding change_master
set_slave k p arg =
    let master = find_port k arg in
    if arg == 0
    then change_master k p arg
    else if master == 0
    then ok (k, err_resource)
    else if not ((k.port master).owner == k.machine.current_task)
    then ok (k, err_permission)
    else change_master (count_slave 1 k master) p arg

-- `PORT_OPT_SETRESTRICT` is 2 and `PORT_OPT_SLAVE` is 4.
unfoldable pub port_option : Kernel → ℕ → ℕ → ℕ → Outcome (Kernel × ℕ)
unfolding set_slave
port_option k id opt arg =
    let p = find_port k id in
    if p == 0
    then ok (k, err_resource)
    else if not ((k.port p).owner == k.machine.current_task)
    then ok (k, err_permission)
    else if opt == 2
    then ok (with_port k p (record (k.port p) { restrict = arg }), err_none)
    else if opt == 4
    then set_slave k p arg
    else ok (k, err_permission)

-- `to[d + i] = from[s + i]` for `k` values of `i`.
unfoldable pub copy_run : ℕ → ℕ → (ℕ → ℕ) → ℕ → (ℕ → ℕ) → ℕ → ℕ → ℕ
copy_run zero i from s to d = to
copy_run (suc k) i from s to d = copy_run k (i + 1) from s (update to (d + i) (from (s + i))) d

-- The same within one memory, where a byte that was written may be read again.
unfoldable pub move_run : ℕ → ℕ → (ℕ → ℕ) → ℕ → ℕ → ℕ → ℕ
move_run zero i mem s d = mem
move_run (suc k) i mem s d = move_run k (i + 1) (update mem (d + i) (mem (s + i))) s d

-- The address space of the current task.
abbrev pub current_space : Kernel → ℕ
current_space k = k.machine.process_addr (k.machine.task k.machine.current_task).parent

-- `p->restrict` keeps the sender out.
abbrev pub barred : Kernel → ℕ → MsgHdr → Bool
barred k p h = not ((k.port p).restrict == 0) && not ((k.port p).restrict == h.src)

-- The checks of `port_send` up to the port that the message goes to: the port, or an error.
unfoldable pub send_target : Kernel → ℕ → MsgHdr → ℕ × ℕ
send_target k mh h =
    let f = find_port k h.src in
    let p = find_port k h.dst in
    let master = find_port k (k.port p).slaved in
    let stranger =
      not ((k.port f).owner == k.machine.current_task)
      && not (
          (k.machine.task (k.port f).owner).parent
          == (k.machine.task k.machine.current_task).parent) in
    if ltb 0x400000 mh
    then (0, err_memory)
    else if f == 0
    then (0, err_sendport)
    else if stranger
    then (0, err_permission)
    else if p == 0
    then (0, err_recvport)
    else if barred k p h
    then (0, err_permission)
    else if (k.port p).slaved == 0
    then (p, err_none)
    else if master == 0
    then (0, err_resource)
    else if not ((k.port master).slaved == 0)
    then (0, err_resource)
    else if barred k master h
    then (0, err_permission)
    else (master, err_none)

-- `(size < 1) || (((uint32) msg) > 0x400000) || (size > 4096)`, of a signed size.
abbrev pub bad_message : MsgHdr → Bool
bad_message h = not (positive h.size) || ltb 0x400000 h.body || (positive h.size && ltb 4096 h.size)

-- The block or the page that carries a message of `size` bytes.
unfoldable pub message_body : Kernel → ℕ → Outcome (Kernel × ℕ)
message_body k size =
    let block = (do (h, a) ← kmalloc_b (heap_of k) size; ok (with_heap k h, a)) in
    let page = (do
      b ← mm_alloc_pages k.machine.kernel 1 3
      ok (record k { machine = record k.machine { kernel = b.memory } }, b.virt)) in
    if ltb size 1025
    then block
    else if not (k.msg_pool == 0)
    then ok (record k { msg_pool = k.chain k.msg_pool }, k.msg_pool)
    else page

-- Message `m` at the end of the port's queue.
unfoldable pub link_messages : (ℕ → Message) → ℕ → ℕ → Message → ℕ → Message
link_messages message last m v =
    let message' = update message m v in
    if last == 0 then message' else update message' last (record (message' last) { next = m })

unfoldable pub link_port : MsgPort → ℕ → MsgPort
link_port q m = record q {
  first = if q.last == 0 then m else q.first;
  last = m;
  msgcount = (q.msgcount + 1) % 2 ^ 32;
}

abbrev pub append_message : Kernel → ℕ → ℕ → Message → Kernel
append_message k p m v = record k {
  message = link_messages k.message (k.port p).last m v;
  port = update k.port p (link_port (k.port p) m);
}

-- The owner is woken if it sleeps on the port that the message was addressed to.
unfoldable pub wake_owner : Kernel → ℕ → ℕ → Kernel
wake_owner k p dst =
    let t = (k.port p).owner in
    if ((k.machine.task t).state == t_sleep_port) && ((k.machine.task t).sleeping_on == dst)
    then with_task k t (record (k.machine.task t) { state = t_ready })
    else k

-- The body's bytes, from the task's buffer. NULL is where no page was left for them: address 0 of the
-- task's own memory.
unfoldable pub copy_in : Kernel → MsgHdr → ℕ → Kernel
unfolding copy_run move_run
copy_in k h body =
    let a = current_space k in
    record k {
      user = if body == 0 then update k.user a (move_run h.size 0 (k.user a) h.body 0) else k.user;
      byte = if body == 0 then k.byte else copy_run h.size 0 (k.user a) h.body k.byte body;
    }

-- The message at `m` with its body at `body`, filled in and put on the queue of port `p`.
unfoldable pub place : Kernel → ℕ → MsgHdr → ℕ → ℕ → Kernel
unfolding copy_in wake_owner link_messages link_port
place k p h m body =
    let v : Message = record {
      next = 0;
      size = h.size;
      from_port = h.src;
      to_port = h.dst;
      pid = (k.machine.task k.machine.current_task).tid;
      body = body;
    } in
    wake_owner (append_message (copy_in k h body) p m v) p h.dst

-- `port_send` to port `p` from the allocation of the message on.
unfoldable pub deliver : Kernel → ℕ → MsgHdr → Outcome (Kernel × ℕ)
unfolding message_body place
deliver k p h = do
  (heap, m) ← kmalloc (heap_of k) km32
  (k', body) ← message_body (with_heap k heap) h.size
  ok (place k' p h m body, h.size)

unfoldable pub port_send : Kernel → ℕ → MsgHdr → Outcome (Kernel × ℕ)
unfolding send_target deliver
port_send k mh h =
    let (p, error) = send_target k mh h in
    let sent = deliver k p h in
    if p == 0 then ok (k, error) else if bad_message h then ok (k, err_memory) else sent

-- What a task that receives gets: the message, or sleep, from which it comes back to the test of
-- `p->msgcount`.
pub data Receipt : Type 0 where
  received : Kernel → MsgHdr → ℕ → Receipt
  asleep : Kernel → Receipt

-- How many bytes `port_recv` copies: `i < m->size` is of unsigned and `i < size` of signed words.
abbrev pub copied_bytes : ℕ → ℕ → ℕ
copied_bytes have room = if positive room then if ltb have room then have else room else 0

-- The first message off the queue.
unfoldable pub unlink_port : MsgPort → ℕ → MsgPort
unlink_port q next = record q {
  first = next;
  last = if next == 0 then 0 else q.last;
  msgcount = (q.msgcount + 2 ^ 32 - 1) % 2 ^ 32;
}

abbrev pub unchain : Kernel → ℕ → Kernel
unchain k p = with_port k p (unlink_port (k.port p) (k.message (k.port p).first).next)

-- The body goes back to the heap, or its page to the pool.
unfoldable pub free_body : Kernel → ℕ → ℕ → Outcome Kernel
free_body k size body =
    let block = (do h ← kfree_b (heap_of k) size body; ok (with_heap k h)) in
    if ltb size 1025
    then block
    else ok (record k { chain = update k.chain body k.msg_pool; msg_pool = body })

-- The task's memory with `n` bytes of the body in its buffer; a body at NULL is read from that memory.
unfoldable pub copy_out : Kernel → ℕ → ℕ → ℕ → ℕ → ℕ
unfolding copy_run move_run
copy_out k n body buffer =
    let user = k.user (current_space k) in
    if body == 0 then move_run n 0 user 0 buffer else copy_run n 0 k.byte body user buffer

-- `port_recv` from the first message on. `Assert(m->size < 4096)` is an empty macro and is left out.
unfoldable pub take_message : Kernel → ℕ → MsgHdr → Outcome Receipt
unfolding unlink_port copy_out free_body
take_message k p h = do
  let m = (k.port p).first
  let v = k.message m
  let user = copy_out k (copied_bytes v.size h.size) v.body h.body
  k' ←
      free_body (unchain (record k { user = update k.user (current_space k) user }) p) v.size v.body
  heap ← kfree (heap_of k') km32 m
  ok (
      received (with_heap k' heap) (record h { src = v.from_port; dst = v.to_port; pid = v.pid })
        (if ltb h.size v.size then h.size else v.size))

-- The loop of `port_recv`, up to the switch to another task.
unfoldable pub recv_loop : Kernel → ℕ → MsgHdr → Outcome Receipt
unfolding take_message
recv_loop k p h =
    let t = k.machine.current_task in
    let k' =
      with_task k t (record (k.machine.task t) { sleeping_on = h.dst; state = t_sleep_port }) in
    let sleeps = (do m ← ps_switch_task k'.machine; ok (asleep (with_machine k' m))) in
    let taken = take_message k p h in if (k.port p).msgcount == 0 then sleeps else taken

-- Its error codes leave the header as it was.
unfoldable pub port_recv : Kernel → ℕ → MsgHdr → Outcome Receipt
unfolding recv_loop
port_recv k mh h =
    let p = find_port k h.dst in
    let loop = recv_loop k p h in
    if ltb 0x400000 mh
    then ok (received k h err_memory)
    else if p == 0
    then ok (received k h err_recvport)
    else if not ((k.port p).owner == k.machine.current_task)
    then ok (received k h err_permission)
    else if ltb 0x400000 h.body
    then ok (received k h err_memory)
    else loop
