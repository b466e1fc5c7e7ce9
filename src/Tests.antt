-- ===== src/Tests.antt =====
-- Concrete inputs, runs on them, and each theorem applied where its premises hold.
mod Samples
mod OnContract
mod OnTopics
mod OnPipeline
mod OnThread
mod OnDirectory
mod OnMetadata
mod OnEpisode
mod OnTransitions
mod OnConfigure
mod OnWorld
mod OnLife
mod OnFailure
