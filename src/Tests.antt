-- ===== src/Tests.antt =====
-- Runs of the models on concrete inputs, and the theorems at inputs that meet their hypotheses.
mod HeapRuns
mod KeyboardRuns
mod SchedRuns
mod PmmRuns
mod StringRuns
mod VfsRuns
mod NetRuns
mod LlmRuns
mod PciRuns
mod RtcRuns
mod SnakeRuns
mod TermRuns
mod VmmRuns
mod ShellRuns
mod InitrdRuns
mod DnsRuns
mod ResolveRuns
