-- ===== src/Realloc/Tests.antt =====
-- tb-utils.c, lines 328-378: runs of calloc, realloc and tb_heap_state.
use threading_from_scratch.Prelude.{◌*◌, ◌%◌, ◌≡◌, refl, [], arith}
use threading_from_scratch.Malloc.{word64}
use threading_from_scratch.Malloc.Tests.{granting, one_block, one_block-IsHeap}
use threading_from_scratch.Realloc.{Memory, size_word, copied, calloc, realloc, tb_heap_state}
use threading_from_scratch.Realloc.Correct.{
  Zeroed, calloc-Zeroed, Reallocated, realloc-Reallocated, copied_size,
}

abbrev memory : Memory
memory = record { heap = one_block; byte = λ a. a % 251 }

calloc-Zeroed_run : Zeroed granting (7 * 4 % word64) memory (calloc granting 7 4 memory)
calloc-Zeroed_run = calloc-Zeroed granting 7 4 memory (omega arith) one_block-IsHeap

realloc-Reallocated_example :
    Reallocated granting 4112 104 300 [] memory (realloc granting 4112 300 memory)
realloc-Reallocated_example =
    realloc-Reallocated granting 4112 104 300 memory [] [] (omega arith) one_block-IsHeap refl

-- 300 bytes are copied from a block of 104.
copied_size_run : copied (size_word 4112 one_block.chunks) 300 ≡ 300
copied_size_run =
    copied_size granting 300 4112 104 one_block [] [] (omega arith) one_block-IsHeap refl

heap_state : tb_heap_state one_block.chunks ≡ (2, 1)
unfolding tb_heap_state
heap_state = refl
